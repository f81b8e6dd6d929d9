-- ===== src/Access/Uhid/Held.antt =====
-- Bootloader/HostLoaderApp/hid_bootloader_cli.c, USE_UHID: what it holds.
use sphere_ware.Base.{ℕ, ◌≡◌, ◌==◌, ◌&&◌, List, [], ◌∷◌, ◌++◌, Option, none, some, refl}
use sphere_ware.Access.{
  Resource, device, enumeration, Call, taken, wrote, Found, found, absent, died, ledger, remove,
  closed, teensy, rebootor, reboot_text, owned_by, kept_event,
}
use sphere_ware.Access.Ledger.{
  Leaves, look_through-Leaves, if-Leaves, ledger-given_back, ledger-taken, AddsOwned, IsAccess,
  closed-Closes, with_handle-Writes, teensy_open-Opens, hard_reboot-Reboots,
}
use sphere_ware.Update.Options.{strip}
use sphere_ware.Access.Uhid.{
  Entry, try_info, try_entry, close_dir, open_usb_device, close, teensy_close, teensy_open,
  teensy_write, hard_reboot, uhid,
}

abbrev owned : ℕ → List Resource
owned fd = device fd ∷ []

try_info-Leaves :
    (ids : ℕ × ℕ) (info : Option (ℕ × ℕ)) (fd : ℕ) (calls : List Call) (left : List Resource)
    → ledger calls ≡ some (device fd ∷ left)
    → Leaves (λ k. owned k ++ left) left (try_info ids info fd calls)
unfolding try_info
try_info-Leaves ids none fd calls left l = tt
try_info-Leaves ids (some (vendor, product)) fd calls left l =
    if-Leaves _ left ((vendor == ids.0) && (product == ids.1)) _ _ l
      (ledger-given_back (device fd) calls left l)

try_open-Leaves :
    (ids : ℕ × ℕ) (info : Option (ℕ × ℕ)) (opens : Option ℕ) (calls : List Call)
    (left : List Resource)
    → ledger calls ≡ some left
    → Leaves
        (λ k. owned k ++ left)
        left
        (elim opens [
          | none ↦ (absent, calls)
          | some fd ↦ try_info ids info fd (taken (device fd) ∷ calls)
        ])
try_open-Leaves ids info none calls left l = l
try_open-Leaves ids info (some fd) calls left l =
    try_info-Leaves ids info fd _ left (ledger-taken (device fd) calls left l)

try_entry-Leaves :
    (ids : ℕ × ℕ) (left : List Resource) (e : Entry) (calls : List Call)
    → ledger calls ≡ some left
    → Leaves (λ k. owned k ++ left) left (try_entry ids e calls)
unfolding try_entry
try_entry-Leaves ids left e calls l =
    elim (strip (b'u' ∷ b'h' ∷ b'i' ∷ b'd' ∷ []) e.name)
      as (λ o.
        Leaves (λ k. owned k ++ left) left
          (elim o [
            | none ↦ (absent, calls)
            | some rest ↦ elim e.opens [
              | none ↦ (absent, calls)
              | some fd ↦ try_info ids e.info fd (taken (device fd) ∷ calls)
            ]
          ])) [ none ↦ l | some rest ↦ try_open-Leaves ids e.info e.opens calls left l ]

-- A device that was opened lies above the enumeration.
close_dir-Leaves :
    (left : List Resource) (r : Found × List Call)
    → Leaves (λ k. owned k ++ (enumeration ∷ left)) (enumeration ∷ left) r
    → Leaves (λ k. owned k ++ left) left (close_dir r)
unfolding close_dir ledger remove
close_dir-Leaves left (found fd, calls) l = rw l refl
close_dir-Leaves left (absent, calls) l = rw l refl
close_dir-Leaves left (died, calls) l = tt

open_usb_device-AddsOwned : AddsOwned owned open_usb_device
unfolding open_usb_device
open_usb_device-AddsOwned ids none calls left l = l
open_usb_device-AddsOwned ids (some entries) calls left l =
    let base = enumeration ∷ left in
    close_dir-Leaves left _ (
      look_through-Leaves (λ k. owned k ++ base) base (try_entry ids) (try_entry-Leaves ids base)
        entries _ (ledger-taken enumeration calls left l))

close-ledger :
    (fd : ℕ) (calls : List Call) (left : List Resource)
    → ledger calls ≡ some (owned fd ++ left)
    → ledger (close fd calls) ≡ some left
unfolding close
close-ledger fd calls left l = ledger-given_back (device fd) calls left l

pub uhid-IsAccess : IsAccess uhid
unfolding teensy_open teensy_close teensy_write hard_reboot ledger
uhid-IsAccess = record {
  opens = λ answers s b.
      teensy_open-Opens owned open_usb_device open_usb_device-AddsOwned teensy answers
        (closed close s.handle s) (closed-Closes owned close close-ledger s b);
  writes = λ written packet ms s b. with_handle-Writes owned _ s (λ h. (b, refl)) b;
  closes = closed-Closes owned close close-ledger;
  reboots = λ answers written s b.
      hard_reboot-Reboots owned open_usb_device open_usb_device-AddsOwned rebootor answers _ s
        (λ fd t l. (
          close-ledger fd (wrote fd reboot_text 0 ∷ t.calls)
              (owned_by owned t.handle ++ kept_event t.event) l,
          refl,
        ))
        b;
}
