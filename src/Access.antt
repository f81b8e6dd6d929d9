-- ===== src/Access.antt =====
-- Bootloader/HostLoaderApp/hid_bootloader_cli.c, the access to USB: what the four variants share.
-- The operating system is an argument of each function, the answers that it gives; what the program
-- takes from it and gives back is collected in the state, the last first.
pub mod Ledger
pub mod Libusb
pub mod Win32
pub mod Uhid
pub mod Iokit
pub mod Session
pub mod Choice
pub mod First
pub mod Unseen
pub mod Waiting
pub mod Decided
pub mod Transfer
pub mod Sending
use sphere_ware.Base.{
  ℕ, ◌+◌, ◌≡◌, Bool, true, false, ◌==◌, if◌then◌else◌, List, [], ◌∷◌, ◌++◌, Option, none, some,
  ◌>>=◌,
}

-- What can be taken: a device (`usb_open`, `CreateFile`, `open`), its interface
-- (`usb_claim_interface`), the enumeration of the devices (`SetupDiGetClassDevs`, `opendir`),
-- allocated memory, and the event of Windows (`CreateEvent`).
pub data Resource : Type 0 where
  device : ℕ → Resource
  interface : ℕ → Resource
  enumeration : Resource
  memory : Resource
  event_object : Resource

pub data Call : Type 0 where
  taken : Resource → Call
  given_back : Resource → Call
  -- `CreateEvent` in `write_usb_device`.
  created : Call
  -- A packet and the time limit in milliseconds, 0 if there is none.
  wrote : ℕ → List ℕ → ℕ → Call

abbrev pub same : Resource → Resource → Bool
same (device a) (device b) = a == b
same (interface a) (interface b) = a == b
same enumeration enumeration = true
same memory memory = true
same event_object event_object = true
same _ _ = false

-- `none`: what is given back is not held.
unfoldable pub remove : Resource → List Resource → Option (List Resource)
remove r [] = none
remove r (x ∷ xs) =
    let rest = remove r xs >>= λ left. some (x ∷ left) in if same r x then some xs else rest

-- What is held after the calls, the last taken first and the events at the end.
unfoldable pub ledger : List Call → Option (List Resource)
unfolding remove
ledger [] = some []
ledger (created ∷ calls) = ledger calls >>= λ held. some (held ++ (event_object ∷ []))
ledger (taken r ∷ calls) = ledger calls >>= λ held. some (r ∷ held)
ledger (given_back r ∷ calls) = ledger calls >>= remove r
ledger (wrote h p t ∷ calls) = ledger calls

-- The result of `open_usb_device`; `died` is a call of `die`.
pub data Found : Type 0 where
  found : ℕ → Found
  absent : Found
  died : Found

-- Goes on where the result is `absent`.
abbrev pub or_else : Found × List Call → (List Call → Found × List Call) → Found × List Call
or_else (found h, calls) next = (found h, calls)
or_else (absent, calls) next = next calls
or_else (died, calls) next = (died, calls)

-- A loop over candidates: `continue` is `absent`, all else ends it.
unfoldable pub look_through {ℓ} :
    {A : Type ℓ} → (A → List Call → Found × List Call) → List A → List Call → Found × List Call
look_through try [] calls = (absent, calls)
look_through try (x ∷ xs) calls = or_else (try x calls) (λ after. look_through try xs after)

-- The global handle of a variant, whether the event of `write_usb_device` is there, and the calls
-- that were made.
pub record Host : Type 0 where
  pub handle : Option ℕ
  pub event : Bool
  pub calls : List Call

abbrev pub fresh : Host
fresh = record { handle = none; event = false; calls = [] }

-- The vendor and the product of the boot loader, of the same as LUFA has it, and of the rebootor.
abbrev pub teensy : ℕ × ℕ
teensy = (0x16c0, 0x0478)

abbrev pub lufa : ℕ × ℕ
lufa = (0x03eb, 0x2067)

abbrev pub rebootor : ℕ × ℕ
rebootor = (0x16c0, 0x0477)

-- `h = open_usb_device(first); if (!h) h = open_usb_device(0x03eb, 0x2067);`
unfoldable pub open_either {ℓ} :
    {A : Type ℓ}
    → (ℕ × ℕ → A → List Call → Found × List Call)
    → ℕ × ℕ
    → A × A
    → List Call
    → Found × List Call
open_either open_usb_device ids (answers, later) calls =
    or_else (open_usb_device ids answers calls) (open_usb_device lufa later)

-- The end of `teensy_open`: the handle is stored, and tested.
abbrev pub stored : Found × List Call → Host → Option (Bool × Host)
stored (found h, calls) s = some (true, record s { handle = some h; calls = calls })
stored (absent, calls) s = some (false, record s { handle = none; calls = calls })
stored (died, calls) s = none

-- The end of `hard_reboot`: `next` writes to the rebootor and gives it back.
abbrev pub with_rebootor :
    Found × List Call → (ℕ → Host → Bool × Host) → Host → Option (Bool × Host)
with_rebootor (found h, calls) next s = some (next h (record s { calls = calls }))
with_rebootor (absent, calls) next s = some (false, record s { calls = calls })
with_rebootor (died, calls) next s = none

-- `if (!handle) return; ... handle = NULL;`
abbrev pub closed : (ℕ → List Call → List Call) → Option ℕ → Host → Host
closed close none s = s
closed close (some h) s = record s { handle = none; calls = close h s.calls }

-- `if (!handle) return 0; ...`
abbrev pub with_handle : Option ℕ → (ℕ → Host → Bool × Host) → Host → Bool × Host
with_handle none next s = (false, s)
with_handle (some h) next s = next h s

-- The six bytes of "reboot".
abbrev pub reboot_text : List ℕ
reboot_text = b'r' ∷ b'e' ∷ b'b' ∷ b'o' ∷ b'o' ∷ b't' ∷ []

-- What the program uses of a variant. Answers are the system's, to an enumeration of the devices
-- and to a write; `none` is a run that ends in `die`.
pub record Access : Type 1 where
  pub Answers : Type 0
  pub Written : Type 0
  pub teensy_open : Answers × Answers → Host → Option (Bool × Host)
  pub teensy_write : Written → List ℕ → ℕ → Host → Bool × Host
  pub teensy_close : Host → Host
  pub hard_reboot : Answers × Answers → Written → Host → Option (Bool × Host)
  -- What an open device holds.
  pub owned : ℕ → List Resource

abbrev pub owned_by : (ℕ → List Resource) → Option ℕ → List Resource
owned_by owned none = []
owned_by owned (some h) = owned h

-- The event, if there is one.
abbrev pub kept_event : Bool → List Resource
kept_event there = if there then event_object ∷ [] else []

-- What belongs to the global handle and the event, if there is one, are held and nothing else, and
-- nothing was given back twice.
abbrev pub IsBalanced : (ℕ → List Resource) → Host → Type 0
IsBalanced owned s = ledger s.calls ≡ some (owned_by owned s.handle ++ kept_event s.event)
