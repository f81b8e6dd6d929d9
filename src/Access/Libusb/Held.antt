-- ===== src/Access/Libusb/Held.antt =====
-- Bootloader/HostLoaderApp/hid_bootloader_cli.c, USE_LIBUSB: what it holds.
use sphere_ware.Base.{ℕ, ◌≡◌, ◌==◌, Bool, List, [], ◌∷◌, ◌++◌, none, some, not, ◌&&◌, refl}
use sphere_ware.Access.{
  Resource, device, interface, Call, taken, given_back, wrote, absent, ledger, look_through, closed,
  teensy, rebootor, reboot_text, owned_by, kept_event,
}
use sphere_ware.Access.Ledger.{
  Leaves, look_through-Leaves, if-Leaves, ledger-given_back, ledger-taken, AddsOwned, IsAccess,
  closed-Closes, with_handle-Writes, teensy_open-Opens, hard_reboot-Reboots,
}
use sphere_ware.Access.Libusb.{
  UsbDevice, claim, try_device, open_usb_device, close, teensy_close, teensy_open, teensy_write,
  hard_reboot, libusb,
}

abbrev owned : ℕ → List Resource
owned h = interface h ∷ device h ∷ []

module _ (has_get_driver : Bool) where
  claim-Leaves :
      (d : UsbDevice) (h : ℕ) (calls : List Call) (left : List Resource)
      → ledger calls ≡ some (device h ∷ left)
      → Leaves (λ k. owned k ++ left) left (claim has_get_driver d h calls)
  unfolding claim ledger
  claim-Leaves d h calls left l =
      let back = ledger-given_back (device h) calls left l in
      if-Leaves _ left (has_get_driver && (d.driver && not d.detaches)) _ _ back (
        if-Leaves _ left (not d.claims) _ _ back
          (ledger-taken (interface h) calls (device h ∷ left) l))

  try_device-Leaves :
      (ids : ℕ × ℕ) (left : List Resource) (d : UsbDevice) (calls : List Call)
      → ledger calls ≡ some left
      → Leaves (λ k. owned k ++ left) left (try_device has_get_driver ids d calls)
  unfolding try_device ledger
  try_device-Leaves ids left d calls l = if-Leaves _ left (not (d.vendor == ids.0)) _ _ l (
      if-Leaves _ left (not (d.product == ids.1)) _ _ l
        (elim d.usb_open
          as (λ o.
            Leaves (λ k. owned k ++ left) left
              (elim o [
                | none ↦ (absent, calls)
                | some h ↦ claim has_get_driver d h (taken (device h) ∷ calls)
              ])) [
                | none ↦ l
                | some h ↦
                    claim-Leaves d h (taken (device h) ∷ calls) left
                      (ledger-taken (device h) calls left l)
              ]))

  open_usb_device-AddsOwned : AddsOwned owned (open_usb_device has_get_driver)
  unfolding open_usb_device
  open_usb_device-AddsOwned ids busses calls left l =
      let held = λ (k : ℕ). owned k ++ left in
      look_through-Leaves held left (look_through (try_device has_get_driver ids))
        (λ devices after m.
          look_through-Leaves held left (try_device has_get_driver ids) (try_device-Leaves ids left)
            devices after m)
        busses calls l

close-ledger :
    (h : ℕ) (calls : List Call) (left : List Resource)
    → ledger calls ≡ some (owned h ++ left)
    → ledger (close h calls) ≡ some left
unfolding close ledger
close-ledger h calls left l =
    ledger-given_back (device h) (given_back (interface h) ∷ calls) left
      (ledger-given_back (interface h) calls (device h ∷ left) l)

pub libusb-IsAccess : (has_get_driver : Bool) → IsAccess (libusb has_get_driver)
unfolding teensy_open teensy_close teensy_write hard_reboot ledger
libusb-IsAccess has_get_driver = record {
  opens = λ answers s b.
      teensy_open-Opens owned (open_usb_device has_get_driver)
        (open_usb_device-AddsOwned has_get_driver) teensy answers (closed close s.handle s)
        (closed-Closes owned close close-ledger s b);
  writes = λ accepted packet ms s b. with_handle-Writes owned _ s (λ h. (b, refl)) b;
  closes = closed-Closes owned close close-ledger;
  reboots = λ answers accepted s b.
      hard_reboot-Reboots owned (open_usb_device has_get_driver)
        (open_usb_device-AddsOwned has_get_driver) rebootor answers _ s
        (λ h t l. (
          close-ledger h (wrote h reboot_text 100 ∷ t.calls)
              (owned_by owned t.handle ++ kept_event t.event) l,
          refl,
        ))
        b;
}
