-- ===== src/Scan/Sort.antt =====
-- SphereWare/SphereWare.c: `BubbleSort` on the arrays `r2r_val` and `pad_order`.
-- The arrays are functions of the index: for `0 < size` every index is below `size`.
pub mod Laws
use sphere_ware.Base.{
  ℕ, zero, suc, ◌+◌, ◌-◌, ◌≤◌, ◌<◌, ltb, ◌==◌, if◌then◌else◌, update, u8, for_range,
}

-- The two arrays that are sorted together.
pub record ScanOrder : Type 0 where
  pub r2r_val : ℕ → ℕ
  pub pad_order : ℕ → ℕ

-- The body of the inner loop at `j`: entries `j - 1` and `j` change places if out of order.
pub exchange : ℕ → ScanOrder → ScanOrder
exchange j s =
    if ltb (s.r2r_val j) (s.r2r_val (j - 1))
    then record {
      r2r_val = update (update s.r2r_val (j - 1) (s.r2r_val j)) j (s.r2r_val (j - 1));
      pad_order = update (update s.pad_order (j - 1) (s.pad_order j)) j (s.pad_order (j - 1));
    }
    else s

-- `for (j = 1; j <= i; j++)`, with the rounds that are left and `j`.
pub bubble : ℕ → ℕ → ScanOrder → ScanOrder
bubble zero j s = s
bubble (suc left) j s = bubble left (suc j) (exchange j s)

-- `for (i = ...; i > 0; i--)`.
pub passes : ℕ → ScanOrder → ScanOrder
passes zero s = s
passes (suc i) s = passes i (bubble (suc i) 1 s)

-- `i` starts at `(uint8_t) (array_size - 1)`.
pub bubble_sort : ℕ → ScanOrder → ScanOrder
bubble_sort array_size s = passes (u8 (array_size + 255)) s
