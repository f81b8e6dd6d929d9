-- ===== src/Access/Iokit/Manager.antt =====
-- Bootloader/HostLoaderApp/hid_bootloader_cli.c, init_hid_manager: what becomes of the device if the
-- manager cannot be used. The callbacks come only from a manager that was opened.
use sphere_ware.Base.{
  ℕ, ◌<◌, ◌≡◌, Bool, if◌then◌else◌, List, [], ◌∷◌, Option, some, ◌>>=◌, refl, arith,
}
use sphere_ware.Access.Iokit.Chain.{Holds}
use sphere_ware.Access.Iokit.Callbacks.{Event}
use sphere_ware.Access.Iokit.Devices.{Answer, Iokit, open_usb_device}
use sphere_ware.Access.Iokit.Opening.{open_usb_device_lem}

-- `hid_manager`: NULL, open, or a pointer that is not NULL and does not serve: to a manager that was
-- released, or to one that was not set up.
pub data Manager : Type 0 where
  null : Manager
  ready : Manager
  released : Manager
  bare : Manager

-- The results of IOHIDManagerCreate.
pub data Created : Type 0 where
  nothing : Created
  another_type : Created
  manager : Created

-- The answers of the system; `dictionary` is CFDictionaryCreateMutable.
pub record Init : Type 0 where
  pub created : Created
  pub dictionary : Bool
  pub opens : Bool

unfoldable pub create_manager : Init → Created → Manager
create_manager i nothing = null
create_manager i another_type = released
create_manager i manager = if i.dictionary then (if i.opens then ready else released) else bare

unfoldable pub init_hid_manager : Init → Manager → Manager
init_hid_manager i null = create_manager i i.created
init_hid_manager i ready = ready
init_hid_manager i released = released
init_hid_manager i bare = bare

abbrev come_from : Manager → List Event → List Event
come_from ready es = es
come_from null es = []
come_from released es = []
come_from bare es = []

-- A call of `open_usb_device`, with init_hid_manager.
pub record Attempt : Type 0 where
  pub ids : ℕ × ℕ
  pub init : Init
  pub answer : Answer

unfoldable pub managed_open : ℕ → Attempt → Manager × Iokit → Option (ℕ × Manager × Iokit)
managed_open fuel a (m, s) =
    let m' = init_hid_manager a.init m in
    open_usb_device fuel a.ids (record a.answer { events = come_from m' a.answer.events }) s
    >>= λ r. some (r.0, m', r.1)

-- One call after the other: what each returns.
unfoldable pub managed_opens : ℕ → List Attempt → Manager × Iokit → Option (List ℕ)
managed_opens fuel [] s = some []
managed_opens fuel (a ∷ rest) s = managed_open fuel a s >>= λ r.
    managed_opens fuel rest (r.1, r.2) >>= λ later. some (r.0 ∷ later)

-- Not NULL and not open.
abbrev pub IsUseless : Manager → Type 0
IsUseless null = ⊥
IsUseless ready = ⊥
IsUseless released = Unit
IsUseless bare = Unit

abbrev pub zeros : List Attempt → List ℕ
zeros [] = []
zeros (a ∷ rest) = 0 ∷ zeros rest

useless : (i : Init) (m : Manager) → IsUseless m → init_hid_manager i m ≡ m
unfolding init_hid_manager
useless i null u = elim u [ ]
useless i ready u = elim u [ ]
useless i released u = refl
useless i bare u = refl

no_events : (m : Manager) (es : List Event) → IsUseless m → come_from m es ≡ []
no_events null es u = elim u [ ]
no_events ready es u = elim u [ ]
no_events released es u = refl
no_events bare es u = refl

managed_open-useless :
    (fuel : ℕ) (a : Attempt) (m n : Manager) (s : Iokit)
    → 0 < fuel
    → init_hid_manager a.init m ≡ n
    → IsUseless n
    → Holds s.memory []
    → (t : Iokit) × (managed_open fuel a (m, s) ≡ some (0, n, t)) × Holds t.memory []
unfolding managed_open
managed_open-useless fuel a m n s lt e u h =
    let (t, run, kept, holds) =
      open_usb_device_lem fuel a.ids (record a.answer { events = [] }) s [] (omega arith) tt h in
    (t, rw (e, no_events n a.answer.events u, run) refl, holds)

managed_opens-useless :
    (fuel : ℕ) (attempts : List Attempt) (m : Manager) (s : Iokit)
    → 0 < fuel
    → IsUseless m
    → Holds s.memory []
    → managed_opens fuel attempts (m, s) ≡ some (zeros attempts)
unfolding managed_opens
managed_opens-useless fuel [] m s lt u h = refl
managed_opens-useless fuel (a ∷ rest) m s lt u h =
    let (t, run, holds) = managed_open-useless fuel a m m s lt (useless a.init m u) u h in
    rw run (rw (managed_opens-useless fuel rest m t lt u holds) refl)

-- With no manager and no device in the list: if the first `open_usb_device` gets something that is
-- no manager, no dictionary for it, or cannot open it, then this call and all later ones find no
-- device, however many there are, whatever devices come and whatever the system would answer to
-- another attempt to create a manager. Each of the calls ends.
pub managed_opens-failed :
    (fuel : ℕ) (first : Attempt) (rest : List Attempt) (s : Iokit)
    → 0 < fuel
    → IsUseless (create_manager first.init first.init.created)
    → Holds s.memory []
    → managed_opens fuel (first ∷ rest) (null, s) ≡ some (zeros (first ∷ rest))
unfolding managed_opens init_hid_manager
managed_opens-failed fuel first rest s lt u h =
    let m = create_manager first.init first.init.created in
    let (t, run, holds) = managed_open-useless fuel first null m s lt refl u h in
    rw run (rw (managed_opens-useless fuel rest m t lt u holds) refl)
