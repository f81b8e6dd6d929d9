-- ===== src/Scan/Sort/Laws.antt =====
-- SphereWare/SphereWare.c: what `BubbleSort` does to the two arrays.
use sphere_ware.Base.{
  ℕ, zero, suc, ◌+◌, ◌-◌, ◌≤◌, ◌<◌, ◌≡◌, ltb, ◌==◌, if◌then◌else◌, u8, arith, ◌∙◌,
}
use sphere_ware.Scan.Sort.{ScanOrder, exchange, bubble, passes, bubble_sort}

-- The entries behind `i` are the largest, in their order.
abbrev Settled : ℕ → ℕ → ScanOrder → Type 0
Settled size i s = (a b : ℕ) → i < b → b < size → a < b → s.r2r_val a ≤ s.r2r_val b

-- The inner loop of the pass `i` at `j`: besides, entry `j - 1` is the largest before `j`.
record Pass (size i j : ℕ) (s : ScanOrder) : Type 0 where
  behind : Settled size i s
  front : (a t : ℕ) → suc t ≡ j → a < j → s.r2r_val a ≤ s.r2r_val t

exchange-behind :
    (size i j : ℕ) (s : ScanOrder) → 0 < j → j ≤ i → Pass size i j s → Settled size i (exchange j s)
unfolding exchange
exchange-behind size i j s pos le p a b ib bs ab =
    ground (arith, p.behind a b, p.behind (j - 1) b, p.behind j b)

exchange-front :
    (size i j : ℕ) (s : ScanOrder)
    → 0 < j
    → j ≤ i
    → Pass size i j s
    → (a t : ℕ) → suc t ≡ suc j
    → a < suc j
    → (exchange j s).r2r_val a ≤ (exchange j s).r2r_val t
unfolding exchange
exchange-front size i j s pos le p a t e aj = ground (arith, p.front a (j - 1))

bubble-Pass :
    (size i left j : ℕ) (s : ScanOrder)
    → 0 < j
    → left + j ≡ suc i
    → Pass size i j s
    → Pass size i (suc i) (bubble left j s)
unfolding bubble
bubble-Pass size i zero j s pos e p = let e' : j ≡ suc i = omega arith in rw e' at p
bubble-Pass size i (suc left) j s pos e p =
    bubble-Pass size i left (suc j) (exchange j s) (omega arith) (omega arith) (record {
      behind = exchange-behind size i j s pos (omega arith) p;
      front = exchange-front size i j s pos (omega arith) p;
    })

passes-Settled : (size i : ℕ) (s : ScanOrder) → Settled size i s → Settled size 0 (passes i s)
unfolding passes
passes-Settled size zero s h = h
passes-Settled size (suc i) s h =
    passes-Settled size i (bubble (suc i) 1 s)
      λ a b ib bs ab. ground (arith, done.behind a b, done.front a b)
  where
    done : Pass size (suc i) (suc (suc i)) (bubble (suc i) 1 s)
    done =
        bubble-Pass size (suc i) (suc i) 1 s (omega arith) (omega arith)
          (record { behind = h; front = λ a t e lt. ground arith })

-- After `BubbleSort` of an array of 1 to 256 entries, no entry of `r2r_val` is larger than a
-- later one.
pub bubble_sort-IsSorted :
    (size : ℕ) (s : ScanOrder)
    → 0 < size
    → size ≤ 256
    → (a b : ℕ) → a < b
    → b < size
    → (bubble_sort size s).r2r_val a ≤ (bubble_sort size s).r2r_val b
unfolding bubble_sort
bubble_sort-IsSorted size s pos small a b ab bs =
    passes-Settled size (u8 (size + 255)) s (λ a b ib bs ab. absurd (omega arith)) a b (omega arith)
      bs ab

-- What every exchange inside the array keeps, the whole sort keeps.
module _ {ℓ} (P : ScanOrder → Type ℓ) (size : ℕ)
    (keep : (j : ℕ) (s : ScanOrder) → 0 < j → j < size → P s → P (exchange j s)) where
  bubble-keeps : (left j : ℕ) (s : ScanOrder) → 0 < j → left + j ≤ size → P s → P (bubble left j s)
  unfolding bubble
  bubble-keeps zero j s pos le p = p
  bubble-keeps (suc left) j s pos le p =
      bubble-keeps left (suc j) (exchange j s) (omega arith) (omega arith)
        (keep j s pos (omega arith) p)

  passes-keeps : (i : ℕ) (s : ScanOrder) → i < size → P s → P (passes i s)
  unfolding passes
  passes-keeps zero s lt p = p
  passes-keeps (suc i) s lt p =
      passes-keeps i _ (omega arith) (bubble-keeps (suc i) 1 s (omega arith) (omega arith) p)

  bubble_sort-keeps : (s : ScanOrder) → 0 < size → P s → P (bubble_sort size s)
  unfolding bubble_sort
  bubble_sort-keeps s pos p = passes-keeps (u8 (size + 255)) s (omega arith) p

-- `pad_order` holds each of the numbers below `size` once in its first `size` entries, and
-- `r2r_val` holds at each index the value of the pad that `pad_order` names there. Entries from
-- `size` on are those of `old`.
pub record Arranges (size : ℕ) (value : ℕ → ℕ) (old s : ScanOrder) : Type 0 where
  pub paired : (k : ℕ) → k < size → s.r2r_val k ≡ value (s.pad_order k)
  pub in_range : (k : ℕ) → k < size → s.pad_order k < size
  pub distinct : (a b : ℕ) → a < size → b < size → s.pad_order a ≡ s.pad_order b → a ≡ b
  pub place : (v : ℕ) → v < size → (k : ℕ) × (k < size) × (s.pad_order k ≡ v)
  pub beyond :
      (k : ℕ) → size ≤ k → (s.r2r_val k ≡ old.r2r_val k) × (s.pad_order k ≡ old.pad_order k)

-- Where the entry at `k` stands after `exchange j`.
moved : ℕ → ScanOrder → ℕ → ℕ
moved j s k =
    if ltb (s.r2r_val j) (s.r2r_val (j - 1))
    then (if k == j then j - 1 else if k == (j - 1) then j else k)
    else k

exchange-moved :
    (size j k : ℕ) (s : ScanOrder)
    → 0 < j
    → j < size
    → k < size
    → (moved j s k < size) × ((exchange j s).pad_order (moved j s k) ≡ s.pad_order k)
unfolding exchange moved
exchange-moved size j k s pos lt h = ground arith

exchange-distinct :
    (size j : ℕ) {value : ℕ → ℕ} {old : ScanOrder} (s : ScanOrder)
    → 0 < j
    → j < size
    → Arranges size value old s
    → (a b : ℕ) → a < size
    → b < size
    → (exchange j s).pad_order a ≡ (exchange j s).pad_order b
    → a ≡ b
unfolding exchange
exchange-distinct size j s pos lt p a b ha hb e = ground (
  arith,
  p.distinct a b,
  p.distinct a j,
  p.distinct a (j - 1),
  p.distinct j b,
  p.distinct (j - 1) b,
  p.distinct (j - 1) j,
  p.distinct j (j - 1),
)

exchange-Arranges :
    (size : ℕ) (value : ℕ → ℕ) (old : ScanOrder) (j : ℕ) (s : ScanOrder)
    → 0 < j
    → j < size
    → Arranges size value old s
    → Arranges size value old (exchange j s)
unfolding exchange
exchange-Arranges size value old j s pos lt p = record {
  paired = λ k h. ground (arith, p.paired k, p.paired j, p.paired (j - 1));
  in_range = λ k h. ground (arith, p.in_range k, p.in_range j, p.in_range (j - 1));
  distinct = exchange-distinct size j s pos lt p;
  place = λ v h.
      let (k, inside, e) = p.place v h in
      let m = exchange-moved size j k s pos lt inside in (moved j s k, m.0, m.1 ∙ e);
  beyond = λ k h. ground (arith, p.beyond k);
}

-- `BubbleSort` only rearranges: if the arrays hold each pad below `size` once, with its value
-- beside it, they still do afterwards, and the entries from `size` on are as they were.
pub bubble_sort-Arranges :
    (size : ℕ) (value : ℕ → ℕ) (s : ScanOrder)
    → 0 < size
    → Arranges size value s s
    → Arranges size value s (bubble_sort size s)
bubble_sort-Arranges size value s pos p =
    bubble_sort-keeps (Arranges size value s) size (exchange-Arranges size value s) s pos p

-- `BubbleSort` of an array of 1 to 256 entries leaves no entry of `r2r_val` larger than a later one,
-- and only rearranges: if the arrays hold each pad below `size` once, with its value beside it, they
-- still do afterwards, and the entries from `size` on are as they were.
pub bubble_sort_lem :
    (size : ℕ) (value : ℕ → ℕ) (s : ScanOrder)
    → 0 < size
    → size ≤ 256
    → Arranges size value s s
    → (a b : ℕ) → a < b
    → b < size
    → ((bubble_sort size s).r2r_val a ≤ (bubble_sort size s).r2r_val b)
      × Arranges size value s (bubble_sort size s)
bubble_sort_lem size value s pos small p a b ab bs =
    (bubble_sort-IsSorted size s pos small a b ab bs, bubble_sort-Arranges size value s pos p)
