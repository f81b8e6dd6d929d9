-- ===== src/Access/Iokit/Chain.antt =====
-- The list that lies in memory, and the list of devices that it stands for.
use sphere_ware.Base.{
  ℕ, ◌≡◌, Bool, true, false, ◌||◌, ◌==◌, List, [], ◌∷◌, Option, none, some, refl, arith,
}
use sphere_ware.Access.Iokit.{Node, Memory, put}

-- A device as `open_usb_device` sees it.
pub record Seen : Type 0 where
  pub ref : ℕ
  pub pid : ℕ
  pub vid : ℕ

abbrev pub as_node : Seen → ℕ → Node
as_node d q = record { ref = d.ref; pid = d.pid; vid = d.vid; next = q }

-- Addresses and devices.
abbrev pub Cells : Type 0
Cells = List (ℕ × Seen)

abbrev pub has : ℕ → Cells → Bool
has a [] = false
has a ((b, d) ∷ xs) = (a == b) || has a xs

-- From `p` on the pointers lead through the nodes of `xs`, all at different addresses, to NULL.
pub data Chain (f : ℕ → Option Node) : ℕ → Cells → Type 0 where
  nil : {p : ℕ} → p ≡ 0 → Chain f p []
  cons :
      {p q : ℕ} {d : Seen} {xs : Cells}
      → (p == 0) ≡ false
      → f p ≡ some (as_node d q)
      → has p xs ≡ false
      → Chain f q xs
      → Chain f p ((p, d) ∷ xs)

-- A change elsewhere leaves the list.
pub frame :
    {f g : ℕ → Option Node} {p : ℕ} {xs : Cells}
    → Chain f p xs
    → ((a : ℕ) → has a xs ≡ true → g a ≡ f a)
    → Chain g p xs
frame (nil e) same = nil e
frame (cons {p} ne at out rest) same =
    cons ne (ground (arith, same p, at)) out (frame rest λ a i. same a (ground arith))

pub frame-put :
    {f : ℕ → Option Node} {p : ℕ} {xs : Cells} (a : ℕ) (n : Option Node)
    → Chain f p xs
    → has a xs ≡ false
    → Chain (put f a n) p xs
frame-put {f} {xs = xs} a n c out = frame c λ b i. ground (arith, out, i)

-- The memory holds the list and nothing else.
pub record Holds (m : Memory) (xs : Cells) : Type 0 where
  pub chain : Chain m.node m.usb_list xs
  pub rest_free : (a : ℕ) → has a xs ≡ false → m.node a ≡ none

-- A node of the list is allocated.
pub not-has :
    {f : ℕ → Option Node} {p : ℕ} {xs : Cells} (a : ℕ)
    → Chain f p xs
    → f a ≡ none
    → has a xs ≡ false
not-has a (nil e) unused = refl
not-has a (cons ne at out rest) unused = ground (arith, at, unused, not-has a rest unused)
