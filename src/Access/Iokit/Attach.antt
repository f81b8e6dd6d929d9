-- ===== src/Access/Iokit/Attach.antt =====
-- Bootloader/HostLoaderApp/hid_bootloader_cli.c, attach_callback.
use sphere_ware.Base.{
  ℕ, zero, suc, ◌<◌, ◌≡◌, true, false, ◌||◌, ◌==◌, if◌then◌else◌, [], ◌∷◌, ◌++◌, Option, none, some,
  refl, arith, ◌∙◌, length, Bool-cases, inl, inr,
}
use sphere_ware.Access.Iokit.{Node, Memory, put, link_last, Announced, attach_node, attach_callback}
use sphere_ware.Access.Iokit.Chain.{
  Seen, as_node, Cells, has, Chain, nil, cons, frame-put, Holds, not-has,
}
use sphere_ware.Access.Iokit.Behind.{memory}

-- The loop puts the new node behind the last.
record Linked (n : ℕ) (d : Seen) (p : ℕ) (xs : Cells) (f g : ℕ → Option Node) : Type 0 where
  chain : Chain g p (xs ++ (n, d) ∷ [])
  others : (a : ℕ) → has a xs ≡ false → g a ≡ f a

abbrev Links : ℕ → ℕ → Seen → ℕ → Cells → (ℕ → Option Node) → ℕ → Type 0
Links k n d p xs f l =
    (g : ℕ → Option Node) × (link_last k p n (memory f l) ≡ some (memory g l)) × Linked n d p xs f g

link_last-here :
    (k p n : ℕ) (e : Seen) (f : ℕ → Option Node) (l : ℕ)
    → (p == 0) ≡ false
    → f p ≡ some (as_node e 0)
    → link_last (suc k) p n (memory f l) ≡ some (memory (put f p (some (as_node e n))) l)
unfolding link_last
link_last-here k p n e f l ne at = ground arith

link_last-on :
    (k p q n : ℕ) (e : Seen) (f : ℕ → Option Node) (l : ℕ)
    → (p == 0) ≡ false
    → f p ≡ some (as_node e q)
    → (q == 0) ≡ false
    → link_last (suc k) p n (memory f l) ≡ link_last k q n (memory f l)
unfolding link_last
link_last-on k p q n e f l ne at more = ground arith

has-last : (a n : ℕ) (d : Seen) (xs : Cells) → has a (xs ++ (n, d) ∷ []) ≡ (has a xs || (a == n))
has-last a n d [] = ground arith
has-last a n d ((b, e) ∷ xs) = ground (arith, has-last a n d xs)

link_last-Links :
    (f : ℕ → Option Node) (l n : ℕ) (d : Seen) (k : ℕ) {p : ℕ} {xs : Cells}
    → length xs < suc k
    → (p == 0) ≡ false
    → (n == 0) ≡ false
    → f n ≡ some (as_node d 0)
    → has n xs ≡ false
    → Chain f p xs
    → Links k n d p xs f l
link_last-Links f l n d k lt ne nn new out (nil z) = absurd (ground (arith, z, ne))
link_last-Links f l n d zero lt ne nn new out (cons ne' at out' c) = absurd (omega arith)
link_last-Links f l n d (suc k) {p} lt ne nn new out (cons {d = e} ne' at out' (nil z)) =
    let at' : f p ≡ some (as_node e 0) = rw (← z) at in
    (
      put f p (some (as_node e n)),
      link_last-here k p n e f l ne at',
      record {
        chain =
            cons ne (ground arith) (ground (arith, out))
              (cons nn (ground (arith, out, new)) refl (nil refl));
        others = λ a away. ground (arith, away);
      },
    )
link_last-Links f l n d (suc k) {p} lt ne nn new out
      (cons {q} {d = e} {xs} ne' at out' (cons nq atq outq c)) =
    let out1 : has n xs ≡ false = ground (arith, out) in
    let (g, run, linked) =
      link_last-Links f l n d k (omega arith) nq nn new out1 (cons nq atq outq c) in
    (
      g,
      link_last-on k p q n e f l ne at nq ∙ run,
      record {
        chain =
            cons ne (linked.others p out' ∙ at) (has-last p n d xs ∙ ground (arith, out, out'))
              linked.chain;
        others = λ a away. linked.others a (ground (arith, away));
      },
    )

-- The node that attach_callback adds, if it adds one.
abbrev pub seen : Announced → Option Seen
seen a = if a.ref == 0 then none else elim a.vendor [
  | none ↦ none
  | some vid ↦ elim a.product [
    | none ↦ none
    | some pid ↦ some (record { ref = a.ref; pid = pid; vid = vid })
  ]
]

abbrev pub attached_at : ℕ → Option Seen → Cells → Cells
attached_at fresh none xs = xs
attached_at fresh (some d) xs = if fresh == 0 then xs else xs ++ (fresh, d) ∷ []

abbrev New : ℕ → ℕ → Seen → (ℕ → Option Node) → ℕ → Cells → Type 0
New fuel fresh d f l xs =
    (t : Memory) × (attach_node fuel fresh d.ref d.vid d.pid (memory f l) ≡ some t)
    × Holds t (xs ++ (fresh, d) ∷ [])

module _ (fuel fresh : ℕ) (d : Seen) (f : ℕ → Option Node) (l : ℕ) (nn : (fresh == 0) ≡ false)
    (unused : f fresh ≡ none) where
  abbrev with_new : ℕ → Option Node
  with_new = put f fresh (some (as_node d 0))

  attach_node-empty :
      l ≡ 0 → attach_node fuel fresh d.ref d.vid d.pid (memory f l) ≡ some (memory with_new fresh)
  unfolding attach_node
  attach_node-empty z = ground (arith, z, nn)

  attach_node-behind :
      (l == 0) ≡ false
      → attach_node fuel fresh d.ref d.vid d.pid (memory f l)
        ≡ link_last fuel l fresh (memory with_new l)
  unfolding attach_node
  attach_node-behind more = rw (nn, more) refl

  attach_node-New :
      {xs : Cells}
      → length xs < suc fuel
      → ((a : ℕ) → has a xs ≡ false → f a ≡ none)
      → Chain f l xs
      → New fuel fresh d f l xs
  attach_node-New lt others (nil z) = (
    memory with_new fresh,
    attach_node-empty z,
    record {
      chain = cons nn (ground arith) refl (nil refl);
      rest_free = λ a away. ground (arith, away, others a refl);
    },
  )
  attach_node-New lt others (cons {q} {d = e} {xs} ne at out c) =
      let here : Chain f l ((l, e) ∷ xs) = cons ne at out c in
      let away = not-has fresh here unused in
      let (g, run, linked) =
        link_last-Links with_new l fresh d fuel lt ne nn (ground arith) away
          (frame-put fresh (some (as_node d 0)) here away) in
      (
        memory g l,
        attach_node-behind ne ∙ run,
        record {
          chain = linked.chain;
          rest_free = λ a gone.
              ground (arith, has-last a fresh d ((l, e) ∷ xs), gone, linked.others a, others a);
        },
      )

abbrev attach_seen : ℕ → ℕ → Option Seen → Memory → Option Memory
attach_seen fuel fresh none m = some m
attach_seen fuel fresh (some d) m = attach_node fuel fresh d.ref d.vid d.pid m

attach_callback-seen :
    (fuel fresh : ℕ) (a : Announced) (m : Memory)
    → attach_callback fuel fresh a m ≡ attach_seen fuel fresh (seen a) m
unfolding attach_callback
attach_callback-seen fuel fresh a m = ground arith

attach_node-null :
    (fuel fresh ref vid pid : ℕ) (m : Memory)
    → (fresh == 0) ≡ true
    → attach_node fuel fresh ref vid pid m ≡ some m
unfolding attach_node
attach_node-null fuel fresh ref vid pid m z = rw z refl

attach_seen-Holds :
    (fuel fresh : ℕ) (o : Option Seen) (m : Memory) (xs : Cells)
    → length xs < suc fuel
    → m.node fresh ≡ none
    → Holds m xs
    → (t : Memory) × (attach_seen fuel fresh o m ≡ some t) × Holds t (attached_at fresh o xs)
attach_seen-Holds fuel fresh none m xs lt unused h = (m, refl, h)
attach_seen-Holds fuel fresh (some d) m xs lt unused h = elim (Bool-cases (fresh == 0)) [
  | inl z ↦ (m, attach_node-null fuel fresh d.ref d.vid d.pid m z, rw z h)
  | inr nn ↦
      let (t, run, holds) =
        attach_node-New fuel fresh d m.node m.usb_list nn unused lt h.rest_free h.chain in
      (t, run, rw nn holds)
]

-- With a list in memory and nothing else, attach_callback reads no freed memory, ends, and puts
-- the new node behind the others, if the device has its properties and `malloc` does not fail.
pub attach_callback-Holds :
    (fuel fresh : ℕ) (a : Announced) (m : Memory) (xs : Cells)
    → length xs < suc fuel
    → m.node fresh ≡ none
    → Holds m xs
    → (t : Memory) × (attach_callback fuel fresh a m ≡ some t)
      × Holds t (attached_at fresh (seen a) xs)
attach_callback-Holds fuel fresh a m xs lt unused h =
    let (t, run, holds) = attach_seen-Holds fuel fresh (seen a) m xs lt unused h in
    (t, attach_callback-seen fuel fresh a m ∙ run, holds)
