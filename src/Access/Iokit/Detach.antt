-- ===== src/Access/Iokit/Detach.antt =====
-- Bootloader/HostLoaderApp/hid_bootloader_cli.c, detach_callback.
use sphere_ware.Base.{
  ℕ, zero, suc, ◌<◌, ◌≡◌, true, false, ◌==◌, ◌∷◌, Option, none, some, refl, arith, ◌∙◌, length,
  Bool-cases, inl, inr,
}
use sphere_ware.Access.Iokit.{Node, Memory, put, detach_loop, detach_callback}
use sphere_ware.Access.Iokit.Chain.{Seen, Cells, has, Chain, nil, cons, frame-put, Holds}
use sphere_ware.Access.Iokit.Behind.{
  without, has-without, Cut, take_out-first, detach_loop-end, detach_loop-stay, detach_loop-out,
  memory, detach-Behind,
}

-- The memory after the whole loop.
record Cleared (dev : ℕ) (xs : Cells) (f : ℕ → Option Node) (m : Memory) : Type 0 where
  chain : Chain m.node m.usb_list (without dev xs)
  others : (a : ℕ) → has a xs ≡ false → m.node a ≡ f a
  freed : (a : ℕ) → has a xs ≡ true → has a (without dev xs) ≡ false → m.node a ≡ none

abbrev Front : ℕ → ℕ → ℕ → Cells → (ℕ → Option Node) → ℕ → Type 0
Front k dev p xs f l =
    (m : Memory) × (detach_loop k dev p 0 (memory f l) ≡ some m) × Cleared dev xs f m

front-stay :
    {f g : ℕ → Option Node} (dev p : ℕ) (d : Seen) (xs : Cells)
    → (d.ref == dev) ≡ false
    → (p == 0) ≡ false
    → has p xs ≡ false
    → Cut dev p d xs f g
    → Cleared dev ((p, d) ∷ xs) f (memory g p)
front-stay {f} {g} dev p d xs other ne out c = record {
  chain =
      let tail : Chain g p ((p, d) ∷ without dev xs) =
        cons ne c.points (has-without p dev xs out) c.chain in
      rw other tail;
  others = λ a away. ground (arith, c.others a, away);
  freed = λ a i gone. ground (arith, other, i, gone, c.freed a);
}

front-out :
    {f : ℕ → Option Node} {m : Memory} (dev p : ℕ) (d : Seen) (xs : Cells)
    → (d.ref == dev) ≡ true
    → has p xs ≡ false
    → Cleared dev xs (put f p none) m
    → Cleared dev ((p, d) ∷ xs) f m
front-out dev p d xs is out c = record {
  chain = rw is c.chain;
  others = λ a away. ground (arith, c.others a, away);
  freed = λ a i gone. ground (arith, is, out, i, gone, c.freed a, c.others a);
}

detach-Front :
    (k dev l : ℕ) {xs : Cells} (f : ℕ → Option Node)
    → length xs < k
    → Chain f l xs
    → Front k dev l xs f l
detach-Front zero dev l f lt c = absurd (omega arith)
detach-Front (suc k) dev l f lt (nil z) = (
  memory f l,
  detach_loop-end k dev l 0 (memory f l) z,
  record { chain = nil z; others = λ a out. refl; freed = λ a i gone. cc },
)
detach-Front (suc k) dev l f lt (cons {q} {d} {xs} ne at out c) = elim (Bool-cases (d.ref == dev)) [
  | inl is ↦
      let (m, run, cleared) =
        detach-Front k dev q (put f l none) (omega arith) (frame-put l none c out) in
      (
        m,
        detach_loop-out k dev l q 0 d (memory f l) ne at is
              (take_out-first l q d (memory f l) ne at)
            ∙ run,
        front-out dev l d xs is out cleared,
      )
  | inr other ↦
      let (g, run, cut) = detach-Behind k dev l d f l (omega arith) at ne out c in
      (
        memory g l,
        detach_loop-stay k dev l q 0 d (memory f l) ne at other ∙ run,
        front-stay dev l d xs other ne out cut,
      )
]

-- With a list in memory and nothing else, detach_callback reads no freed memory, ends within one
-- round for each node and one more, and leaves the list without the device, its nodes freed.
pub detach_callback-Holds :
    (fuel dev : ℕ) (m : Memory) (xs : Cells)
    → length xs < fuel
    → Holds m xs
    → (t : Memory) × (detach_callback fuel dev m ≡ some t) × Holds t (without dev xs)
unfolding detach_callback
detach_callback-Holds fuel dev m xs lt h =
    let (t, run, c) = detach-Front fuel dev m.usb_list m.node lt h.chain in
    (
      t,
      run,
      record {
        chain = c.chain;
        rest_free = λ a out. elim (Bool-cases (has a xs)) [
          | inl i ↦ c.freed a i out
          | inr away ↦ c.others a away ∙ h.rest_free a away
        ];
      },
    )
