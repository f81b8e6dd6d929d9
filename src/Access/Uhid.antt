-- ===== src/Access/Uhid.antt =====
-- Bootloader/HostLoaderApp/hid_bootloader_cli.c, USE_UHID.
pub mod Held
use sphere_ware.Base.{
  ℕ, ◌≡◌, Bool, true, false, not, ◌&&◌, ◌==◌, if◌then◌else◌, List, [], ◌∷◌, Option, none, some,
  length,
}
use sphere_ware.Update.Options.{strip}
use sphere_ware.Access.{
  device, enumeration, Call, taken, given_back, wrote, Found, found, absent, died, look_through,
  Host, closed, with_handle, Access, teensy, rebootor, open_either, stored, with_rebootor,
  reboot_text,
}

-- An entry of /dev: its name, what `open` returns for it, and the vendor and the product that
-- `ioctl` gives, `none` if it fails.
pub record Entry : Type 0 where
  pub name : List ℕ
  pub opens : Option ℕ
  pub info : Option (ℕ × ℕ)

unfoldable pub try_info : ℕ × ℕ → Option (ℕ × ℕ) → ℕ → List Call → Found × List Call
try_info ids none fd calls = (died, calls)
try_info (vid, pid) (some (vendor, product)) fd calls =
    if (vendor == vid) && (product == pid)
    then (found fd, calls)
    else (absent, given_back (device fd) ∷ calls)

unfoldable pub try_entry : ℕ × ℕ → Entry → List Call → Found × List Call
try_entry ids e calls = elim (strip (b'u' ∷ b'h' ∷ b'i' ∷ b'd' ∷ []) e.name) [
  | none ↦ (absent, calls)
  | some rest ↦ elim e.opens [
    | none ↦ (absent, calls)
    | some fd ↦ try_info ids e.info fd (taken (device fd) ∷ calls)
  ]
]

-- `closedir`, on each way out but that through `die`.
unfoldable pub close_dir : Found × List Call → Found × List Call
close_dir (found fd, calls) = (found fd, given_back enumeration ∷ calls)
close_dir (absent, calls) = (absent, given_back enumeration ∷ calls)
close_dir (died, calls) = (died, calls)

-- `none` if /dev cannot be read.
unfoldable pub open_usb_device : ℕ × ℕ → Option (List Entry) → List Call → Found × List Call
open_usb_device ids none calls = (absent, calls)
open_usb_device ids (some entries) calls =
    close_dir (look_through (try_entry ids) entries (taken enumeration ∷ calls))

-- `close(fd)`
unfoldable pub close : ℕ → List Call → List Call
close h calls = given_back (device h) ∷ calls

unfoldable pub teensy_close : Host → Host
teensy_close s = closed close s.handle s

unfoldable pub teensy_open : Option (List Entry) × Option (List Entry) → Host → Option (Bool × Host)
teensy_open answers s =
    let s' = teensy_close s in stored (open_either open_usb_device teensy answers s'.calls) s'

-- `written` is what `write` returns for an open device, `none` for -1. There is no time limit. On
-- the descriptor -1 `write` fails.
unfoldable pub teensy_write : Option ℕ → List ℕ → ℕ → Host → Bool × Host
teensy_write written packet ms s =
    with_handle s.handle
      (λ fd t. (
        elim written [ none ↦ false | some r ↦ r == length packet ],
        record t { calls = wrote fd packet 0 ∷ t.calls },
      ))
      s

unfoldable pub hard_reboot :
    Option (List Entry) × Option (List Entry) → Option ℕ → Host → Option (Bool × Host)
hard_reboot answers written s =
    with_rebootor (open_either open_usb_device rebootor answers s.calls)
      (λ fd t. (
        elim written [ none ↦ false | some r ↦ r == 6 ],
        record t { calls = close fd (wrote fd reboot_text 0 ∷ t.calls) },
      ))
      s

abbrev pub uhid : Access
uhid = record {
  Answers = Option (List Entry);
  Written = Option ℕ;
  teensy_open = teensy_open;
  teensy_write = teensy_write;
  teensy_close = teensy_close;
  hard_reboot = hard_reboot;
  owned = λ fd. device fd ∷ [];
}
