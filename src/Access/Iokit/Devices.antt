-- ===== src/Access/Iokit/Devices.antt =====
-- Bootloader/HostLoaderApp/hid_bootloader_cli.c, USE_APPLE_IOKIT: the functions that the program
-- calls. That the manager could be created and opened is assumed: the callbacks come.
use sphere_ware.Base.{
  ℕ, zero, suc, ◌<◌, ◌≡◌, Bool, true, false, not, ◌&&◌, ◌==◌, if◌then◌else◌, List, [], ◌∷◌, Option,
  none, some, ◌>>=◌, refl, arith, length, Bool-cases, inl, inr,
}
use sphere_ware.Access.{device, Call, taken, given_back, wrote, teensy, lufa, rebootor, reboot_text}
use sphere_ware.Access.Iokit.{Memory, load}
use sphere_ware.Access.Iokit.Chain.{Cells, Chain, nil, cons}
use sphere_ware.Access.Iokit.Callbacks.{Event, callbacks}

-- What the system answers to `open_usb_device`: the callbacks, and which devices can be opened.
pub record Answer : Type 0 where
  pub events : List Event
  pub opens : ℕ → Bool

-- `iokit_teensy_reference`, the list, and the calls, the last first.
pub record Iokit : Type 0 where
  pub handle : ℕ
  pub memory : Memory
  pub calls : List Call

-- `for (p = usb_list; p; p = p->next)`, on fuel.
unfoldable pub find_loop : ℕ → ℕ × ℕ → (ℕ → Bool) → ℕ → Memory → Option ℕ
find_loop zero ids opens p m = none
find_loop (suc k) ids opens p m =
    if p == 0
    then some 0
    else (load p m >>= λ n.
        if ((n.vid == ids.0) && (n.pid == ids.1)) && opens n.ref
        then some n.ref
        else find_loop k ids opens n.next m)

abbrev pub noted : ℕ → List Call → List Call
noted ref calls = if ref == 0 then calls else taken (device ref) ∷ calls

-- `NULL` is 0.
unfoldable pub open_usb_device : ℕ → ℕ × ℕ → Answer → Iokit → Option (ℕ × Iokit)
open_usb_device fuel ids answer s = callbacks fuel answer.events s.memory >>= λ m.
    find_loop fuel ids answer.opens m.usb_list m >>= λ ref.
    some (ref, record s { memory = m; calls = noted ref s.calls })

-- Whether the device is still in the list.
unfoldable pub listed : ℕ → ℕ → ℕ → Memory → Option Bool
listed zero dev p m = none
listed (suc k) dev p m =
    if p == 0
    then some false
    else (load p m >>= λ n. if n.ref == dev then some true else listed k dev n.next m)

unfoldable pub close_usb_device : ℕ → ℕ → List Event → Iokit → Option Iokit
close_usb_device fuel dev events s = callbacks fuel events s.memory >>= λ m.
    listed fuel dev m.usb_list m >>= λ there.
    some (record s {
      memory = m;
      calls = if there then given_back (device dev) ∷ s.calls else s.calls;
    })

unfoldable pub teensy_close : ℕ → List Event → Iokit → Option Iokit
teensy_close fuel events s =
    if s.handle == 0
    then some s
    else (close_usb_device fuel s.handle events s >>= λ t. some (record t { handle = 0 }))

-- `h = open_usb_device(first); if (!h) h = open_usb_device(0x03eb, 0x2067);`
unfoldable pub open_either : ℕ → ℕ × ℕ → Answer × Answer → Iokit → Option (ℕ × Iokit)
open_either fuel ids (answer, later) s = open_usb_device fuel ids answer s >>= λ r.
    if r.0 == 0 then open_usb_device fuel lufa later r.1 else some r

unfoldable pub teensy_open : ℕ → List Event → Answer × Answer → Iokit → Option (Bool × Iokit)
teensy_open fuel events answers s = teensy_close fuel events s >>= λ t.
    open_either fuel teensy answers t >>= λ r. some (not (r.0 == 0), record r.1 { handle = r.0 })

-- There is no time limit.
unfoldable pub teensy_write : Bool → List ℕ → Iokit → Bool × Iokit
teensy_write accepted packet s =
    if s.handle == 0
    then (false, s)
    else (accepted, record s { calls = wrote s.handle packet 0 ∷ s.calls })

unfoldable pub hard_reboot : ℕ → List Event → Answer × Answer → Bool → Iokit → Option (Bool × Iokit)
hard_reboot fuel events answers accepted s = open_either fuel rebootor answers s >>= λ r.
    if r.0 == 0
    then some (false, r.1)
    else (close_usb_device fuel r.0 events
          (record r.1 { calls = wrote r.0 reboot_text 0 ∷ r.1.calls })
        >>= λ t. some (accepted, t))

-- The device that is to be found: the first with these ids that opens; 0 if there is none.
abbrev pub first_seen : ℕ × ℕ → (ℕ → Bool) → Cells → ℕ
first_seen ids opens [] = 0
first_seen ids opens ((a, d) ∷ xs) =
    if ((d.vid == ids.0) && (d.pid == ids.1)) && opens d.ref then d.ref else first_seen ids opens xs

pub find_loop-first_seen :
    (k : ℕ) (ids : ℕ × ℕ) (opens : ℕ → Bool) {p : ℕ} {xs : Cells} (m : Memory)
    → length xs < k
    → Chain m.node p xs
    → find_loop k ids opens p m ≡ some (first_seen ids opens xs)
unfolding find_loop
find_loop-first_seen zero ids opens m lt c = absurd (omega arith)
find_loop-first_seen (suc k) ids opens m lt (nil z) = ground (arith, z)
find_loop-first_seen (suc k) ids opens m lt (cons {d} ne at out c) =
    let rest = find_loop-first_seen k ids opens m (omega arith) c in
    rw (ne, at)
      (elim (Bool-cases (((d.vid == ids.0) && (d.pid == ids.1)) && opens d.ref)) [
        | inl it ↦ rw it refl
        | inr other ↦ rw other rest
      ])

pub listed-lem :
    (k dev : ℕ) {p : ℕ} {xs : Cells} (m : Memory)
    → length xs < k
    → Chain m.node p xs
    → (there : Bool) × (listed k dev p m ≡ some there)
unfolding listed
listed-lem zero dev m lt c = absurd (omega arith)
listed-lem (suc k) dev m lt (nil z) = (false, ground (arith, z))
listed-lem (suc k) dev m lt (cons {d} ne at out c) =
    let (there, e) = listed-lem k dev m (omega arith) c in
    ((if d.ref == dev then true else there), rw (ne, at) (ground (arith, e)))
