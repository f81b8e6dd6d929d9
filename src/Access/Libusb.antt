-- ===== src/Access/Libusb.antt =====
-- Bootloader/HostLoaderApp/hid_bootloader_cli.c, USE_LIBUSB.
pub mod Held
use sphere_ware.Base.{
  ℕ, ◌*◌, ◌≡◌, Bool, true, false, not, ◌&&◌, ◌==◌, if◌then◌else◌, List, [], ◌∷◌, Option, none, some,
}
use sphere_ware.Access.{
  Resource, device, interface, Call, taken, given_back, wrote, Found, found, absent, died,
  look_through, Host, closed, with_handle, Access, teensy, rebootor, open_either, stored,
  with_rebootor, reboot_text,
}

-- A `struct usb_device` and the answers to the calls that are made for it. `driver` is
-- `usb_get_driver_np` with a result from 0 on.
pub record UsbDevice : Type 0 where
  pub vendor : ℕ
  pub product : ℕ
  pub usb_open : Option ℕ
  pub driver : Bool
  pub detaches : Bool
  pub claims : Bool

unfoldable pub close : ℕ → List Call → List Call
close h calls = given_back (device h) ∷ given_back (interface h) ∷ calls

unfoldable pub teensy_close : Host → Host
teensy_close s = closed close s.handle s

-- `accepted` is `usb_control_msg` with a result from 0 on.
unfoldable pub teensy_write : Bool → List ℕ → ℕ → Host → Bool × Host
teensy_write accepted packet ms s =
    with_handle s.handle (λ h t. (accepted, record t { calls = wrote h packet ms ∷ t.calls })) s

-- `has_get_driver` is LIBUSB_HAS_GET_DRIVER_NP.
module _ (has_get_driver : Bool) where
  -- The rest of the body of the loop, once the device is open.
  unfoldable pub claim : UsbDevice → ℕ → List Call → Found × List Call
  claim d h calls =
      if has_get_driver && (d.driver && not d.detaches)
      then (absent, given_back (device h) ∷ calls)
      else if not d.claims
      then (absent, given_back (device h) ∷ calls)
      else (found h, taken (interface h) ∷ calls)

  unfoldable pub try_device : ℕ × ℕ → UsbDevice → List Call → Found × List Call
  try_device (vid, pid) d calls =
      if not (d.vendor == vid)
      then (absent, calls)
      else if not (d.product == pid)
      then (absent, calls)
      else elim d.usb_open [
        | none ↦ (absent, calls)
        | some h ↦ claim d h (taken (device h) ∷ calls)
      ]

  -- The two loops: the buses, and the devices of each.
  unfoldable pub open_usb_device : ℕ × ℕ → List (List UsbDevice) → List Call → Found × List Call
  open_usb_device ids busses calls = look_through (look_through (try_device ids)) busses calls

  unfoldable pub teensy_open :
      List (List UsbDevice) × List (List UsbDevice) → Host → Option (Bool × Host)
  teensy_open answers s =
      let s' = teensy_close s in stored (open_either open_usb_device teensy answers s'.calls) s'

  unfoldable pub hard_reboot :
      List (List UsbDevice) × List (List UsbDevice) → Bool → Host → Option (Bool × Host)
  hard_reboot answers accepted s =
      with_rebootor (open_either open_usb_device rebootor answers s.calls)
        (λ h t. (accepted, record t { calls = close h (wrote h reboot_text 100 ∷ t.calls) })) s

abbrev pub libusb : Bool → Access
libusb has_get_driver = record {
  Answers = List (List UsbDevice);
  Written = Bool;
  teensy_open = teensy_open has_get_driver;
  teensy_write = teensy_write;
  teensy_close = teensy_close;
  hard_reboot = hard_reboot has_get_driver;
  owned = λ h. interface h ∷ device h ∷ [];
}
