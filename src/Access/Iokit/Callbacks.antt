-- ===== src/Access/Iokit/Callbacks.antt =====
-- Bootloader/HostLoaderApp/hid_bootloader_cli.c: the devices that come and go on Mac OS X.
use sphere_ware.Base.{
  ℕ, suc, ◌+◌, ◌<◌, ◌≡◌, false, List, [], ◌∷◌, Option, none, some, ◌>>=◌, refl, arith, length,
  length-append,
}
use sphere_ware.Access.Iokit.{Memory, Announced, attach_callback, detach_callback}
use sphere_ware.Access.Iokit.Chain.{Seen, Cells, has, Holds}
use sphere_ware.Access.Iokit.Behind.{without}
use sphere_ware.Access.Iokit.Detach.{detach_callback-Holds}
use sphere_ware.Access.Iokit.Attach.{seen, attached_at, attach_callback-Holds}

-- A call of a callback by the run loop, with what `malloc` returns.
pub data Event : Type 0 where
  attached : ℕ → Announced → Event
  detached : ℕ → Event

unfoldable pub callback : ℕ → Event → Memory → Option Memory
callback fuel (attached fresh a) m = attach_callback fuel fresh a m
callback fuel (detached dev) m = detach_callback fuel dev m

-- do_run_loop
unfoldable pub callbacks : ℕ → List Event → Memory → Option Memory
callbacks fuel [] m = some m
callbacks fuel (e ∷ rest) m = callback fuel e m >>= λ t. callbacks fuel rest t

-- The list of the devices, apart from the memory.
abbrev pub after_event : Event → Cells → Cells
after_event (attached fresh a) xs = attached_at fresh (seen a) xs
after_event (detached dev) xs = without dev xs

abbrev pub after_events : List Event → Cells → Cells
after_events [] xs = xs
after_events (e ∷ rest) xs = after_events rest (after_event e xs)

-- `malloc` returns NULL or memory that is not in use.
abbrev pub IsUnused : Event → Cells → Type 0
IsUnused (attached fresh a) xs = has fresh xs ≡ false
IsUnused (detached dev) xs = Unit

abbrev pub AreUnused : List Event → Cells → Type 0
AreUnused [] xs = Unit
AreUnused (e ∷ rest) xs = IsUnused e xs × AreUnused rest (after_event e xs)

callback-Holds :
    (fuel : ℕ) (e : Event) (m : Memory) (xs : Cells)
    → length xs < fuel
    → IsUnused e xs
    → Holds m xs
    → (t : Memory) × (callback fuel e m ≡ some t) × Holds t (after_event e xs)
unfolding callback
callback-Holds fuel (attached fresh a) m xs lt unused h =
    attach_callback-Holds fuel fresh a m xs (omega arith) (h.rest_free fresh unused) h
callback-Holds fuel (detached dev) m xs lt unused h = detach_callback-Holds fuel dev m xs lt h

length-without : (dev : ℕ) (xs : Cells) → length (without dev xs) < suc (length xs)
length-without dev [] = omega arith
length-without dev ((a, d) ∷ xs) = ground (arith, length-without dev xs)

length-attached_at :
    (fresh : ℕ) (o : Option Seen) (xs : Cells)
    → length (attached_at fresh o xs) < suc (suc (length xs))
length-attached_at fresh none xs = omega arith
length-attached_at fresh (some d) xs = ground (arith, length-append xs ((fresh, d) ∷ []))

pub length-after_event :
    (e : Event) (xs : Cells) → length (after_event e xs) < suc (suc (length xs))
length-after_event (attached fresh a) xs = length-attached_at fresh (seen a) xs
length-after_event (detached dev) xs = omega (arith, length-without dev xs)

-- However devices come and go, with a list in memory and nothing else, and with memory from
-- `malloc` that is not in use, if it is not NULL: the callbacks never read or write memory that is
-- not allocated, each of their loops ends, and afterwards the memory holds the list of the devices
-- that are there, in the order in which they came, and nothing else.
pub callbacks-Holds :
    (fuel : ℕ) (es : List Event) (m : Memory) (xs : Cells)
    → length xs + length es < fuel
    → AreUnused es xs
    → Holds m xs
    → (t : Memory) × (callbacks fuel es m ≡ some t) × Holds t (after_events es xs)
unfolding callbacks
callbacks-Holds fuel [] m xs lt unused h = (m, refl, h)
callbacks-Holds fuel (e ∷ rest) m xs lt (unused, later) h =
    let (t, run, holds) = callback-Holds fuel e m xs (omega arith) unused h in
    let (last, on, end) =
      callbacks-Holds fuel rest t (after_event e xs) (omega (arith, length-after_event e xs)) later
        holds in
    (last, rw run on, end)
