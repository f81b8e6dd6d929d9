-- ===== src/Access/Win32/Held.antt =====
-- Bootloader/HostLoaderApp/hid_bootloader_cli.c, USE_WIN32: what it holds.
use sphere_ware.Base.{
  ℕ, ◌≡◌, ◌==◌, not, ◌||◌, Bool, List, [], ◌∷◌, ◌++◌, Option, none, some, refl, ltb, length, ◌&&◌,
  Bool-cases, inl, inr, true, false, if◌then◌else◌,
}
use mathlib.Core.List.{append-nil}
use sphere_ware.Access.{
  Resource, device, enumeration, memory, Call, taken, given_back, created, Found, found, absent,
  died, ledger, remove, Host, closed, teensy, rebootor, reboot_text, owned_by, kept_event,
}
use sphere_ware.Access.Ledger.{
  Leaves, look_through-Leaves, if-Leaves, ledger-given_back, ledger-taken, AddsOwned, Reboots,
  IsAccess, closed-Closes, with_handle-Writes, teensy_open-Opens, hard_reboot-Reboots,
}
use sphere_ware.Access.Win32.{
  Interface, Written, try_attributes, try_interface, end_search, open_usb_device, write_usb_device,
  close, close_rebootor, teensy_close, teensy_open, teensy_write, hard_reboot, win32,
}

abbrev owned : ℕ → List Resource
owned h = device h ∷ []

-- While the loop runs the enumeration is held below; a device is returned without it.
module _ (left : List Resource) where
  abbrev held : ℕ → List Resource
  held h = device h ∷ left

  try_attributes-Leaves :
      (ids : ℕ × ℕ) (attributes : Option (ℕ × ℕ)) (h : ℕ) (calls : List Call)
      → ledger calls ≡ some (device h ∷ enumeration ∷ left)
      → Leaves held (enumeration ∷ left) (try_attributes ids attributes h calls)
  unfolding try_attributes ledger remove
  try_attributes-Leaves ids none h calls l = ledger-given_back (device h) calls _ l
  try_attributes-Leaves ids (some (vendor, product)) h calls l =
      if-Leaves held (enumeration ∷ left) (not (vendor == ids.0) || not (product == ids.1)) _ _
        (ledger-given_back (device h) calls _ l) (rw l refl)

  try_file-Leaves :
      (ids : ℕ × ℕ) (attributes : Option (ℕ × ℕ)) (file : Option ℕ) (calls : List Call)
      → ledger calls ≡ some (enumeration ∷ left)
      → Leaves held (enumeration ∷ left) (elim file [
        | none ↦ (absent, given_back memory ∷ taken memory ∷ calls)
        | some h ↦
            try_attributes ids attributes h
              (given_back memory ∷ taken (device h) ∷ taken memory ∷ calls)
      ])
  unfolding ledger remove
  try_file-Leaves ids attributes none calls l = rw l refl
  try_file-Leaves ids attributes (some h) calls l =
      try_attributes-Leaves ids attributes h _ (rw l refl)

  try_interface-Leaves :
      (ids : ℕ × ℕ) (i : Interface) (calls : List Call)
      → ledger calls ≡ some (enumeration ∷ left)
      → Leaves held (enumeration ∷ left) (try_interface ids i calls)
  unfolding try_interface ledger remove
  try_interface-Leaves ids i calls l = if-Leaves held _ (not i.allocated) _ _ l (
      if-Leaves held _ (not i.detail) _ _ (rw l refl)
        (try_file-Leaves ids i.attributes i.create_file calls l))

  end_search-Leaves :
      (r : Found × List Call) → Leaves held (enumeration ∷ left) r → Leaves held left (end_search r)
  unfolding end_search
  end_search-Leaves (found h, calls) l = l
  end_search-Leaves (absent, calls) l = ledger-given_back enumeration calls left l
  end_search-Leaves (died, calls) l = tt

open_usb_device-AddsOwned : AddsOwned owned open_usb_device
unfolding open_usb_device
open_usb_device-AddsOwned ids none calls left l = l
open_usb_device-AddsOwned ids (some interfaces) calls left l = end_search-Leaves left _ (
    look_through-Leaves (held left) (enumeration ∷ left) (try_interface ids)
      (try_interface-Leaves left ids) interfaces _ (ledger-taken enumeration calls left l))

close-ledger :
    (h : ℕ) (calls : List Call) (left : List Resource)
    → ledger calls ≡ some (owned h ++ left)
    → ledger (close h calls) ≡ some left
unfolding close
close-ledger h calls left l = ledger-given_back (device h) calls left l

-- An event that is created is held from there on.
event-ledger :
    (there : Bool) (calls : List Call) (held : List Resource)
    → ledger calls ≡ some (held ++ kept_event there)
    → ledger (if there then calls else created ∷ calls) ≡ some (held ++ kept_event true)
unfolding ledger
event-ledger true calls held l = l
event-ledger false calls held l = rw (l, append-nil held) refl

write_usb_device_lem :
    (w : Written) (h : ℕ) (packet : List ℕ) (ms : ℕ) (held : List Resource) (s : Host)
    → ledger s.calls ≡ some (held ++ kept_event s.event)
    → let t = (write_usb_device w h packet ms s).1 in
      (ledger t.calls ≡ some (held ++ kept_event t.event)) × (t.handle ≡ s.handle)
unfolding write_usb_device ledger
write_usb_device_lem w h packet ms held s l = elim (Bool-cases (ltb 1039 (length packet))) [
  | inl long ↦ rw long (l, refl)
  | inr fits ↦ elim (Bool-cases (not s.event && not w.creates_event)) [
    | inl none_made ↦ rw (fits, none_made) (l, refl)
    | inr made ↦ rw (fits, made) (event-ledger s.event s.calls held l, refl)
  ]
]

reboot-go :
    (h : ℕ) (s : Host) (r : Bool × Host)
    → (ledger r.1.calls ≡ some ((owned h ++ owned_by owned s.handle) ++ kept_event r.1.event))
      × (r.1.handle ≡ s.handle)
    → Reboots owned s (some (close_rebootor h r))
unfolding close_rebootor
reboot-go h s (result, t) (held, kept) = (close-ledger h t.calls _ (rw kept held), kept)

pub win32-IsAccess : IsAccess win32
unfolding teensy_open teensy_close teensy_write hard_reboot
win32-IsAccess = record {
  opens = λ answers s b.
      teensy_open-Opens owned open_usb_device open_usb_device-AddsOwned teensy answers
        (closed close s.handle s) (closed-Closes owned close close-ledger s b);
  writes = λ w packet ms s b.
      with_handle-Writes owned _ s
        (λ h.
          let (held, kept) = write_usb_device_lem w h packet ms (owned_by owned s.handle) s b in
          (rw kept held, kept))
        b;
  closes = closed-Closes owned close close-ledger;
  reboots = λ answers w s b.
      hard_reboot-Reboots owned open_usb_device open_usb_device-AddsOwned rebootor answers _ s
        (λ h t l.
          reboot-go h t _
            (write_usb_device_lem w h reboot_text 100 (owned h ++ owned_by owned t.handle) t l))
        b;
}
