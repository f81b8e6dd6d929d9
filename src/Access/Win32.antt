-- ===== src/Access/Win32.antt =====
-- Bootloader/HostLoaderApp/hid_bootloader_cli.c, USE_WIN32.
pub mod Held
use sphere_ware.Base.{
  ℕ, ◌≡◌, Bool, true, false, not, ◌&&◌, ◌||◌, ◌==◌, ltb, if◌then◌else◌, List, [], ◌∷◌, Option, none,
  some, length,
}
use sphere_ware.Access.{
  device, enumeration, memory, Call, taken, given_back, created, wrote, Found, found, absent, died,
  look_through, Host, closed, with_handle, Access, teensy, rebootor, open_either, stored,
  with_rebootor, reboot_text,
}

-- An interface that `SetupDiEnumDeviceInterfaces` finds: whether `malloc` and
-- `SetupDiGetInterfaceDeviceDetail` succeed, the handle of `CreateFile`, and the vendor and the
-- product of `HidD_GetAttributes`.
pub record Interface : Type 0 where
  pub allocated : Bool
  pub detail : Bool
  pub create_file : Option ℕ
  pub attributes : Option (ℕ × ℕ)

-- From the attributes on.
unfoldable pub try_attributes : ℕ × ℕ → Option (ℕ × ℕ) → ℕ → List Call → Found × List Call
try_attributes ids none h calls = (absent, given_back (device h) ∷ calls)
try_attributes (vid, pid) (some (vendor, product)) h calls =
    if not (vendor == vid) || not (product == pid)
    then (absent, given_back (device h) ∷ calls)
    else (found h, given_back enumeration ∷ calls)

unfoldable pub try_interface : ℕ × ℕ → Interface → List Call → Found × List Call
try_interface ids i calls =
    if not i.allocated
    then (absent, calls)
    else if not i.detail
    then (absent, given_back memory ∷ taken memory ∷ calls)
    else elim i.create_file [
      | none ↦ (absent, given_back memory ∷ taken memory ∷ calls)
      | some h ↦
          try_attributes ids i.attributes h
            (given_back memory ∷ taken (device h) ∷ taken memory ∷ calls)
    ]

-- The enumeration ends where `SetupDiEnumDeviceInterfaces` fails.
unfoldable pub end_search : Found × List Call → Found × List Call
end_search (found h, calls) = (found h, calls)
end_search (absent, calls) = (absent, given_back enumeration ∷ calls)
end_search (died, calls) = (died, calls)

-- `none` if `SetupDiGetClassDevs` fails.
unfoldable pub open_usb_device : ℕ × ℕ → Option (List Interface) → List Call → Found × List Call
open_usb_device ids none calls = (absent, calls)
open_usb_device ids (some interfaces) calls =
    end_search (look_through (try_interface ids) interfaces (taken enumeration ∷ calls))

pub data Wait : Type 0 where
  object : Wait
  timeout : Wait
  failed : Wait

-- The answers to `CreateEvent`, `WriteFile`, whether its error is ERROR_IO_PENDING, to
-- `WaitForSingleObject` and `GetOverlappedResult`.
pub record Written : Type 0 where
  pub creates_event : Bool
  pub write_file : Bool
  pub pending : Bool
  pub waits : Wait
  pub result : Bool

-- The part from `WriteFile` on.
unfoldable pub written : Written → Bool
written w =
    if w.write_file
    then w.result
    else if not w.pending
    then false
    else elim w.waits [ object ↦ w.result | timeout ↦ false | failed ↦ false ]

-- The packet behind a zero fits into `tmpbuf`, of 1040 bytes.
unfoldable pub write_usb_device : Written → ℕ → List ℕ → ℕ → Host → Bool × Host
write_usb_device w h packet ms s =
    if ltb 1039 (length packet)
    then (false, s)
    else if not s.event && not w.creates_event
    then (false, s)
    else (
      written w,
      record s {
        event = true;
        calls = wrote h (0 ∷ packet) ms ∷ (if s.event then s.calls else created ∷ s.calls);
      },
    )

-- `CloseHandle(h)`
unfoldable pub close : ℕ → List Call → List Call
close h calls = given_back (device h) ∷ calls

unfoldable pub teensy_close : Host → Host
teensy_close s = closed close s.handle s

unfoldable pub teensy_open :
    Option (List Interface) × Option (List Interface) → Host → Option (Bool × Host)
teensy_open answers s =
    let s' = teensy_close s in stored (open_either open_usb_device teensy answers s'.calls) s'

unfoldable pub teensy_write : Written → List ℕ → ℕ → Host → Bool × Host
teensy_write w packet ms s = with_handle s.handle (λ h t. write_usb_device w h packet ms t) s

unfoldable pub close_rebootor : ℕ → Bool × Host → Bool × Host
close_rebootor h (result, t) = (result, record t { calls = close h t.calls })

unfoldable pub hard_reboot :
    Option (List Interface) × Option (List Interface) → Written → Host → Option (Bool × Host)
hard_reboot answers w s =
    with_rebootor (open_either open_usb_device rebootor answers s.calls)
      (λ h t. close_rebootor h (write_usb_device w h reboot_text 100 t)) s

abbrev pub win32 : Access
win32 = record {
  Answers = Option (List Interface);
  Written = Written;
  teensy_open = teensy_open;
  teensy_write = teensy_write;
  teensy_close = teensy_close;
  hard_reboot = hard_reboot;
  owned = λ h. device h ∷ [];
}
