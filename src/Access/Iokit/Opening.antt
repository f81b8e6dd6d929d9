-- ===== src/Access/Iokit/Opening.antt =====
-- Bootloader/HostLoaderApp/hid_bootloader_cli.c, USE_APPLE_IOKIT: what `teensy_open` returns.
use sphere_ware.Base.{
  ℕ, ◌+◌, ◌<◌, ◌≤◌, ◌≡◌, not, ◌==◌, if◌then◌else◌, List, [], ◌∷◌, Option, some, refl, arith, ◌∙◌,
  length, Bool-cases, inl, inr,
}
use sphere_ware.Access.{teensy, lufa, device, given_back}
use sphere_ware.Access.Iokit.Chain.{Cells, Holds}
use sphere_ware.Access.Iokit.Callbacks.{
  Event, after_event, after_events, AreUnused, callbacks-Holds, length-after_event,
}
use sphere_ware.Access.Iokit.Devices.{
  Answer, Iokit, noted, open_usb_device, close_usb_device, teensy_close, open_either, teensy_open,
  first_seen, find_loop-first_seen, listed-lem,
}

length-after_events :
    (es : List Event) (xs : Cells) → length (after_events es xs) ≤ length xs + length es
length-after_events [] xs = omega arith
length-after_events (e ∷ rest) xs =
    omega (arith, length-after_events rest (after_event e xs), length-after_event e xs)

-- A run that ends, with the list `xs` in memory.
abbrev pub Leads : {A : Type 0} → Option (A × Iokit) → A → ℕ → Cells → Type 0
Leads run a handle xs = (t : Iokit) × (run ≡ some (a, t)) × (t.handle ≡ handle) × Holds t.memory xs

pub open_usb_device_lem :
    (fuel : ℕ) (ids : ℕ × ℕ) (answer : Answer) (s : Iokit) (xs : Cells)
    → length xs + length answer.events < fuel
    → AreUnused answer.events xs
    → Holds s.memory xs
    → let ys = after_events answer.events xs in
      Leads (open_usb_device fuel ids answer s) (first_seen ids answer.opens ys) s.handle ys
unfolding open_usb_device
open_usb_device_lem fuel ids answer s xs lt unused h =
    let (m, run, holds) = callbacks-Holds fuel answer.events s.memory xs lt unused h in
    let found =
      find_loop-first_seen fuel ids answer.opens m
        (omega (arith, length-after_events answer.events xs)) holds.chain in
    (
      record s {
        memory = m;
        calls = noted (first_seen ids answer.opens (after_events answer.events xs)) s.calls;
      },
      rw (run, found) refl,
      refl,
      holds,
    )

close_usb_device_lem :
    (fuel dev : ℕ) (events : List Event) (s : Iokit) (xs : Cells)
    → length xs + length events < fuel
    → AreUnused events xs
    → Holds s.memory xs
    → (t : Iokit) × (close_usb_device fuel dev events s ≡ some t)
      × Holds t.memory (after_events events xs)
unfolding close_usb_device
close_usb_device_lem fuel dev events s xs lt unused h =
    let (m, run, holds) = callbacks-Holds fuel events s.memory xs lt unused h in
    let (there, e) =
      listed-lem fuel dev m (omega (arith, length-after_events events xs)) holds.chain in
    (
      record s { memory = m; calls = if there then given_back (device dev) ∷ s.calls else s.calls },
      rw (run, e) refl,
      holds,
    )

-- The list after `teensy_close`.
abbrev pub after_close : ℕ → List Event → Cells → Cells
after_close handle events xs = if handle == 0 then xs else after_events events xs

teensy_close_lem :
    (fuel : ℕ) (events : List Event) (s : Iokit) (xs : Cells)
    → length xs + length events < fuel
    → AreUnused events xs
    → Holds s.memory xs
    → (t : Iokit) × (teensy_close fuel events s ≡ some t)
      × (t.handle ≡ 0)
      × Holds t.memory (after_close s.handle events xs)
unfolding teensy_close
teensy_close_lem fuel events s xs lt unused h = elim (Bool-cases (s.handle == 0)) [
  | inl closed ↦ (s, rw closed refl, ground arith, rw closed h)
  | inr open_handle ↦
      let (t, run, holds) = close_usb_device_lem fuel s.handle events s xs lt unused h in
      (record t { handle = 0 }, rw (open_handle, run) refl, refl, rw open_handle holds)
]

length-after_close :
    (handle : ℕ) (events : List Event) (xs : Cells)
    → length (after_close handle events xs) ≤ length xs + length events
length-after_close handle events xs = ground (arith, length-after_events events xs)

-- The device that `teensy_open` is to take, of the list `ys` and then of `zs`.
abbrev pub taken_of : Answer → Cells → Answer → Cells → ℕ
taken_of first ys second zs =
    let h = first_seen teensy first.opens ys in
    if h == 0 then first_seen lufa second.opens zs else h

open_either_lem :
    (fuel : ℕ) (first second : Answer) (s : Iokit) (xs : Cells)
    → length xs + length first.events + length second.events < fuel
    → AreUnused first.events xs
    → AreUnused second.events (after_events first.events xs)
    → Holds s.memory xs
    → let ys = after_events first.events xs in
      let zs = after_events second.events ys in
      (ws : Cells) × Leads
        (open_either fuel teensy (first, second) s)
        (taken_of first ys second zs)
        s.handle
        ws
unfolding open_either
open_either_lem fuel first second s xs lt unused later h =
    let ys = after_events first.events xs in
    let (t, run, kept, holds) = open_usb_device_lem fuel teensy first s xs (omega arith) unused h in
    elim (Bool-cases (first_seen teensy first.opens ys == 0)) [
      | inl missing ↦
          let (u, again, kept', holds') =
            open_usb_device_lem fuel lufa second t ys
              (omega (arith, length-after_events first.events xs)) later holds in
          (after_events second.events ys, (u, rw run (rw missing again), kept' ∙ kept, holds'))
      | inr here ↦ (ys, (t, rw run (rw here refl), kept, holds))
    ]

-- However devices come and go meanwhile, with the list in memory and nothing else, `teensy_open`
-- on Mac OS X never touches memory that is not allocated and ends. It takes the first device
-- 16c0:0478 of the list that can be opened, or else, of the list as it is later, the first
-- 03eb:2067, and succeeds exactly if there is one (its reference is not NULL); the memory then
-- holds a list and nothing else.
pub teensy_open_lem :
    (fuel : ℕ) (events : List Event) (first second : Answer) (s : Iokit) (xs : Cells)
    → length xs + length events + length first.events + length second.events < fuel
    → AreUnused events xs
    → (let xs' = after_close s.handle events xs in
        AreUnused first.events xs' × AreUnused second.events (after_events first.events xs'))
    → Holds s.memory xs
    → let ys = after_events first.events (after_close s.handle events xs) in
      let zs = after_events second.events ys in
      let h = taken_of first ys second zs in
      (ws : Cells) × Leads (teensy_open fuel events (first, second) s) (not (h == 0)) h ws
unfolding teensy_open
teensy_open_lem fuel events first second s xs lt unused (unused1, unused2) holds0 =
    let xs' = after_close s.handle events xs in
    let (t, closed, none_open, held) =
      teensy_close_lem fuel events s xs (omega arith) unused holds0 in
    let (ws, (u, run, kept, holds)) =
      open_either_lem fuel first second t xs' (omega (arith, length-after_close s.handle events xs))
        unused1 unused2 held in
    let ys = after_events first.events xs' in
    let h = taken_of first ys second (after_events second.events ys) in
    (ws, (record u { handle = h }, rw closed (rw run refl), refl, holds))
