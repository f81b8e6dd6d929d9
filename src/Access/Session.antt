-- ===== src/Access/Session.antt =====
-- Bootloader/HostLoaderApp/hid_bootloader_cli.c: any sequence of the calls by which `main` uses a
-- variant.
use sphere_ware.Base.{ℕ, ◌≡◌, Bool, List, ◌++◌, some, refl}
use mathlib.Core.Path.{subst}
use sphere_ware.Access.{Host, fresh, ledger, Access, owned_by, kept_event, IsBalanced}
use sphere_ware.Access.Ledger.{Opens, Reboots, IsAccess}
use sphere_ware.Access.Libusb.{libusb}
use sphere_ware.Access.Libusb.Held.{libusb-IsAccess}
use sphere_ware.Access.Uhid.{uhid}
use sphere_ware.Access.Uhid.Held.{uhid-IsAccess}
use sphere_ware.Access.Win32.{win32}
use sphere_ware.Access.Win32.Held.{win32-IsAccess}

-- USE_LIBUSB, with or without LIBUSB_HAS_GET_DRIVER_NP, USE_WIN32 and USE_UHID.
pub data Variant : Type 0 where
  use_libusb : Bool → Variant
  use_win32 : Variant
  use_uhid : Variant

abbrev pub access : Variant → Access
access (use_libusb has_get_driver) = libusb has_get_driver
access use_win32 = win32
access use_uhid = uhid

access-IsAccess : (v : Variant) → IsAccess (access v)
access-IsAccess (use_libusb has_get_driver) = libusb-IsAccess has_get_driver
access-IsAccess use_win32 = win32-IsAccess
access-IsAccess use_uhid = uhid-IsAccess

start : (v : Variant) → IsBalanced (access v).owned fresh
unfolding ledger
start v = refl

module _ (a : Access) where
  open a use {Answers, Written, teensy_open, teensy_write, teensy_close, hard_reboot, owned}

  pub data Step : Host → Host → Type 0 where
    opens :
        {s t : Host} {result : Bool} (answers : Answers × Answers)
        → teensy_open answers s ≡ some (result, t)
        → Step s t
    writes :
        {s t : Host} {result : Bool} (w : Written) (packet : List ℕ) (ms : ℕ)
        → teensy_write w packet ms s ≡ (result, t)
        → Step s t
    closes : {s t : Host} → teensy_close s ≡ t → Step s t
    reboots :
        {s t : Host} {result : Bool} (answers : Answers × Answers) (w : Written)
        → hard_reboot answers w s ≡ some (result, t)
        → Step s t

  pub data Reach (s : Host) : Host → Type 0 where
    here : Reach s s
    next : {t u : Host} → Reach s t → Step t u → Reach s u

  module _ (good : IsAccess a) where
    Step-IsBalanced : {s t : Host} → Step s t → IsBalanced owned s → IsBalanced owned t
    Step-IsBalanced {s} (opens answers e) b = (subst (Opens owned) e (good.opens answers s b)).0
    Step-IsBalanced {s} (writes w packet ms e) b =
        subst (λ (r : Bool × Host). IsBalanced owned r.1) e (good.writes w packet ms s b).0
    Step-IsBalanced {s} (closes e) b = subst (IsBalanced owned) e (good.closes s b).0
    Step-IsBalanced {s} (reboots answers w e) b =
        (subst (Reboots owned s) e (good.reboots answers w s b)).0

    pub Reach-IsBalanced : {s t : Host} → Reach s t → IsBalanced owned s → IsBalanced owned t
    Reach-IsBalanced here b = b
    Reach-IsBalanced (next r st) b = Step-IsBalanced st (Reach-IsBalanced r b)

-- Whatever `main` calls in whatever order, with whatever answers of the system: with libusb, on
-- Windows and with uhid the program holds exactly what belongs to the device that is open and, once
-- it was created, the one event of Windows, it has given nothing back twice, and `teensy_close` leaves
-- nothing but that event, for which there is no `CloseHandle`. (A run that ends in `die` has no
-- state.)
pub sessions-IsBalanced :
    (v : Variant) {s : Host}
    → Reach (access v) fresh s
    → (ledger s.calls ≡ some (owned_by (access v).owned s.handle ++ kept_event s.event))
      × (let t = (access v).teensy_close s in ledger t.calls ≡ some (kept_event t.event))
sessions-IsBalanced v {s} r =
    let b = Reach-IsBalanced (access v) (access-IsAccess v) r (start v) in
    let (left, closed) = (access-IsAccess v).closes s b in (b, rw closed at left)
