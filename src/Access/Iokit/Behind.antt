-- ===== src/Access/Iokit/Behind.antt =====
-- Bootloader/HostLoaderApp/hid_bootloader_cli.c, the loop of detach_callback behind a node that
-- stays.
use sphere_ware.Base.{
  ℕ, zero, suc, ◌<◌, ◌≡◌, true, false, ◌==◌, if◌then◌else◌, [], ◌∷◌, Option, none, some, refl,
  arith, ◌∙◌, length, Bool-cases, inl, inr,
}
use sphere_ware.Access.Iokit.{Node, Memory, put, take_out, detach_loop}
use sphere_ware.Access.Iokit.Chain.{Seen, as_node, Cells, has, Chain, nil, cons, frame-put}

-- The devices that stay.
abbrev pub without : ℕ → Cells → Cells
without dev [] = []
without dev ((a, d) ∷ xs) = if d.ref == dev then without dev xs else (a, d) ∷ without dev xs

pub has-without : (a dev : ℕ) (xs : Cells) → has a xs ≡ false → has a (without dev xs) ≡ false
has-without a dev [] out = refl
has-without a dev ((b, d) ∷ xs) out = ground (arith, has-without a dev xs)

-- What the loop does to a list whose nodes are `xs`, behind the node at `prev`.
pub record Cut (dev prev : ℕ) (d : Seen) (xs : Cells) (f g : ℕ → Option Node) : Type 0 where
  pub first : ℕ
  pub points : g prev ≡ some (as_node d first)
  pub chain : Chain g first (without dev xs)
  pub others : (a : ℕ) → has a xs ≡ false → (a == prev) ≡ false → g a ≡ f a
  pub freed : (a : ℕ) → has a xs ≡ true → has a (without dev xs) ≡ false → g a ≡ none

-- A node behind the one at `prev` is taken out.
take_out-behind :
    (p q prev : ℕ) (d e : Seen) (m : Memory)
    → (p == 0) ≡ false
    → (prev == 0) ≡ false
    → (prev == p) ≡ false
    → m.node p ≡ some (as_node d q)
    → m.node prev ≡ some (as_node e p)
    → take_out prev p q m
      ≡ some (q, record m { node = put (put m.node prev (some (as_node e q))) p none })
unfolding take_out
take_out-behind p q prev d e m ne nprev apart at before = ground arith

-- The first node is taken out.
pub take_out-first :
    (p q : ℕ) (d : Seen) (m : Memory)
    → (p == 0) ≡ false
    → m.node p ≡ some (as_node d q)
    → take_out 0 p q m ≡ some (q, record m { node = put m.node p none; usb_list = q })
unfolding take_out
take_out-first p q d m ne at = ground arith

pub detach_loop-end :
    (k dev p prev : ℕ) (m : Memory) → p ≡ 0 → detach_loop (suc k) dev p prev m ≡ some m
unfolding detach_loop
detach_loop-end k dev p prev m z = ground (arith, z)

module _ (k dev p q prev : ℕ) (d : Seen) (m : Memory) (ne : (p == 0) ≡ false)
    (at : m.node p ≡ some (as_node d q)) where
  pub detach_loop-stay :
      (d.ref == dev) ≡ false → detach_loop (suc k) dev p prev m ≡ detach_loop k dev q p m
  unfolding detach_loop
  detach_loop-stay other = rw (ne, at) (rw other refl)

  pub detach_loop-out :
      {after : ℕ × Memory}
      → (d.ref == dev) ≡ true
      → take_out prev p q m ≡ some after
      → detach_loop (suc k) dev p prev m ≡ detach_loop k dev after.0 prev after.1
  unfolding detach_loop
  detach_loop-out is out = rw (ne, at) (rw (is, out) refl)

abbrev pub memory : (ℕ → Option Node) → ℕ → Memory
memory f l = record { node = f; usb_list = l }

-- The end of the loop with a list behind `prev`.
abbrev pub Behind : ℕ → ℕ → ℕ → ℕ → Seen → Cells → (ℕ → Option Node) → ℕ → Type 0
Behind k dev p prev e xs f l =
    (g : ℕ → Option Node) × (detach_loop k dev p prev (memory f l) ≡ some (memory g l))
    × Cut dev prev e xs f g

Cut-out :
    {f g : ℕ → Option Node} (dev prev p q : ℕ) (d e : Seen) (xs : Cells)
    → (d.ref == dev) ≡ true
    → (prev == p) ≡ false
    → has p xs ≡ false
    → Cut dev prev e xs (put (put f prev (some (as_node e q))) p none) g
    → Cut dev prev e ((p, d) ∷ xs) f g
Cut-out dev prev p q d e xs is apart out c = record {
  first = c.first;
  points = c.points;
  chain = rw is c.chain;
  others = λ a away other. ground (arith, c.others a, away, other);
  freed = λ a i gone. ground (arith, is, apart, out, i, gone, c.freed a, c.others a, c.others p);
}

Cut-stay :
    {f g : ℕ → Option Node} (dev prev p : ℕ) (d e : Seen) (xs : Cells)
    → (d.ref == dev) ≡ false
    → (p == 0) ≡ false
    → (prev == p) ≡ false
    → has p xs ≡ false
    → has prev xs ≡ false
    → f prev ≡ some (as_node e p)
    → Cut dev p d xs f g
    → Cut dev prev e ((p, d) ∷ xs) f g
Cut-stay {f} {g} dev prev p d e xs other ne apart out away before c = record {
  first = p;
  points = c.others prev away apart ∙ before;
  chain =
      let tail : Chain g p ((p, d) ∷ without dev xs) =
        cons ne c.points (has-without p dev xs out) c.chain in
      rw other tail;
  others = λ a away other. ground (arith, c.others a, away, other);
  freed = λ a i gone. ground (arith, other, i, gone, c.freed a);
}

step-Behind :
    (k dev prev p q : ℕ) (d e : Seen) (xs : Cells) (f : ℕ → Option Node) (l : ℕ)
    → f prev ≡ some (as_node e p)
    → (prev == 0) ≡ false
    → (prev == p) ≡ false
    → has prev xs ≡ false
    → (p == 0) ≡ false
    → f p ≡ some (as_node d q)
    → has p xs ≡ false
    → ((g : ℕ → Option Node)
        → g prev ≡ some (as_node e q)
        → Chain g q xs
        → Behind k dev q prev e xs g l)
    → Behind k dev q p d xs f l
    → Chain f q xs
    → Behind (suc k) dev p prev e ((p, d) ∷ xs) f l
step-Behind k dev prev p q d e xs f l before nprev apart away ne at out again on c =
    elim (Bool-cases (d.ref == dev)) [
      | inl is ↦
          let f1 = put (put f prev (some (as_node e q))) p none in
          let c1 = frame-put p none (frame-put prev (some (as_node e q)) c away) out in
          let (g, run, cut) = again f1 (ground (arith, apart)) c1 in
          (
            g,
            detach_loop-out k dev p q prev d (memory f l) ne at is
                  (take_out-behind p q prev d e (memory f l) ne nprev apart at before)
                ∙ run,
            Cut-out dev prev p q d e xs is apart out cut,
          )
      | inr other ↦
          let (g, run, cut) = on in
          (
            g,
            detach_loop-stay k dev p q prev d (memory f l) ne at other ∙ run,
            Cut-stay dev prev p d e xs other ne apart out away before cut,
          )
    ]

pub detach-Behind :
    (k dev prev : ℕ) (e : Seen) {p : ℕ} {xs : Cells} (f : ℕ → Option Node) (l : ℕ)
    → length xs < k
    → f prev ≡ some (as_node e p)
    → (prev == 0) ≡ false
    → has prev xs ≡ false
    → Chain f p xs
    → Behind k dev p prev e xs f l
detach-Behind zero dev prev e f l lt before nprev away c = absurd (omega arith)
detach-Behind (suc k) dev prev e {p} f l lt before nprev away (nil z) = (
  f,
  detach_loop-end k dev p prev (memory f l) z,
  record {
    first = p;
    points = before;
    chain = nil z;
    others = λ a out other. refl;
    freed = λ a i gone. cc;
  },
)
detach-Behind (suc k) dev prev e {p} f l lt before nprev away (cons {q} {d} {xs} ne at out c) =
    let apart : (prev == p) ≡ false = ground arith in
    let away' : has prev xs ≡ false = ground arith in
    step-Behind k dev prev p q d e xs f l before nprev apart away' ne at out
      (λ g b c1. detach-Behind k dev prev e g l (omega arith) b nprev away' c1)
      (detach-Behind k dev p d f l (omega arith) at ne out c) c
