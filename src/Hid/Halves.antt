-- ===== src/Hid/Halves.antt =====
-- SphereWare/GenericHID.c: the report that the host puts together from two packets, when the report
-- has changed between them.
use sphere_ware.Base.{
  ℕ, zero, suc, ◌+◌, ◌-◌, ◌*◌, ◌/◌, ◌%◌, ◌<◌, ◌≡◌, true, false, ltb, ◌==◌, if◌then◌else◌, List,
  ◌++◌, Option, none, some, get_elem?, get_or, arith, refl, ◌∙◌, ap, dec_lt, lt→ltb,
  get_elem?-eq-get_or,
}
use sphere_ware.Hid.Buffer.{Hid, byte_at}
use sphere_ware.Hid.Pads.{IsWhole, value_of, velocity_of}
use sphere_ware.Hid.Transfer.{read_bytes, send_packet}

-- A byte of what the host has received; 0 for a byte that the device had no right to read.
abbrev received : List (Option ℕ) → ℕ → ℕ
received packets j = elim (get_or packets j none) [ none ↦ 0 | some v ↦ v ]

abbrev pub received_value : List (Option ℕ) → ℕ → ℕ
received_value packets pad =
    received packets (2 + pad * 2) * 2 + received packets (1 + pad * 2) / 128

abbrev pub received_velocity : List (Option ℕ) → ℕ → ℕ
received_velocity packets pad = received packets (1 + pad * 2) % 128

get_or-read_bytes :
    (n i k : ℕ) (b : List ℕ) (rest : List (Option ℕ))
    → k < n
    → get_or (read_bytes n i b ++ rest) k none ≡ get_elem? b (i + k)
unfolding read_bytes
get_or-read_bytes zero i k b rest h = absurd (omega arith)
get_or-read_bytes (suc n) i zero b rest h = let e : i + 0 ≡ i = omega arith in rw e refl
get_or-read_bytes (suc n) i (suc k) b rest h =
    let e : i + 1 + k ≡ i + suc k = omega arith in
    rw e at (get_or-read_bytes n (i + 1) k b rest (omega arith))

get_or-last :
    (n i k : ℕ) (b : List ℕ) → k < n → get_or (read_bytes n i b) k none ≡ get_elem? b (i + k)
unfolding read_bytes
get_or-last zero i k b h = absurd (omega arith)
get_or-last (suc n) i zero b h = let e : i + 0 ≡ i = omega arith in rw e refl
get_or-last (suc n) i (suc k) b h =
    let e : i + 1 + k ≡ i + suc k = omega arith in rw e at (get_or-last n (i + 1) k b (omega arith))

get_or-behind :
    (n i k : ℕ) (b : List ℕ) (rest : List (Option ℕ))
    → get_or (read_bytes n i b ++ rest) (n + k) none ≡ get_or rest k none
unfolding read_bytes
get_or-behind zero i k b rest = let e : 0 + k ≡ k = omega arith in rw e refl
get_or-behind (suc n) i k b rest =
    let e : suc n + k ≡ suc (n + k) = omega arith in rw e (get_or-behind n (i + 1) k b rest)

packets_of :
    (h1 h2 : Hid)
    → h1.flip ≡ false
    → h2.flip ≡ true
    → (send_packet h1).0 ++ (send_packet h2).0
      ≡ read_bytes 64 0 h1.buffer ++ read_bytes 64 64 h2.buffer
unfolding send_packet
packets_of h1 h2 low high = rw (low, high) refl

abbrev byte_of : Option ℕ → ℕ
byte_of o = elim o [ none ↦ 0 | some v ↦ v ]

-- The first 64 bytes are of the report at the first packet, the others at the second.
received_lem :
    (h1 h2 : Hid) (j : ℕ)
    → IsWhole h1
    → IsWhole h2
    → h1.flip ≡ false
    → h2.flip ≡ true
    → j < 127
    → received ((send_packet h1).0 ++ (send_packet h2).0) j
      ≡ (if ltb j 64 then byte_at h1 j else byte_at h2 j)
received_lem h1 h2 j w1 w2 low high lt = elim (dec_lt j 64) [
  | yes first ↦
      let at_j = get_or-read_bytes 64 0 j h1.buffer (read_bytes 64 64 h2.buffer) first in
      let z : 0 + j ≡ j = omega arith in
      let found : get_elem? h1.buffer (0 + j) ≡ some (byte_at h1 j) =
        rw z (get_elem?-eq-get_or h1.buffer j 0 (omega arith)) in
      ap (λ l. received l j) (packets_of h1 h2 low high)
      ∙ ap byte_of (at_j ∙ found)
      ∙ rw (lt→ltb j 64 first) refl
  | no second ↦
      let k = j - 64 in
      let e : 64 + k ≡ j = omega arith in
      let off : ltb j 64 ≡ false = ground arith in
      let at_j = get_or-behind 64 0 k h1.buffer (read_bytes 64 64 h2.buffer) in
      let here = at_j ∙ get_or-last 64 64 k h2.buffer (omega arith) in
      let found = get_elem?-eq-get_or h2.buffer j 0 (omega arith) in
      ap (λ l. received l j) (packets_of h1 h2 low high)
      ∙ ap byte_of ((rw e at here) ∙ found)
      ∙ rw off refl
]

received-split :
    (h1 h2 : Hid)
    → IsWhole h1
    → IsWhole h2
    → h1.flip ≡ false
    → h2.flip ≡ true
    → byte_at h1 63 < 256
    → byte_at h2 63 < 256
    → let packets = (send_packet h1).0 ++ (send_packet h2).0 in
      (received_velocity packets 31 ≡ velocity_of h1 31)
      × (received_value packets 31 ≡ value_of h2 31 / 2 * 2 + value_of h1 31 % 2)
received-split h1 h2 w1 w2 low high small1 small2 =
    let a = received_lem h1 h2 63 w1 w2 low high (omega arith) in
    let b = received_lem h1 h2 64 w1 w2 low high (omega arith) in
    let parts : byte_at h2 64 * 2 + byte_at h1 63 / 128
        ≡ (byte_at h2 64 * 2 + byte_at h2 63 / 128) / 2 * 2
          + (byte_at h1 64 * 2 + byte_at h1 63 / 128) % 2 =
      omega arith in
    (rw a refl, rw (a, b) parts)

-- What the host reads of a pad from two packets in a row, when the report has become another one
-- between them, where the bytes at 63 are below 256: a pad below 31 has the value and the velocity of the first report, one above 31
-- those of the second. The two bytes of pad 31 lie on both sides: its velocity and the lowest bit
-- of its value are of the first report, the other bits of its value of the second.
pub received_pad :
    (h1 h2 : Hid) (pad : ℕ)
    → IsWhole h1
    → IsWhole h2
    → h1.flip ≡ false
    → h2.flip ≡ true
    → byte_at h1 63 < 256
    → byte_at h2 63 < 256
    → pad < 48
    → let packets = (send_packet h1).0 ++ (send_packet h2).0 in
      (received_velocity packets pad
        ≡ (if ltb 31 pad then velocity_of h2 pad else velocity_of h1 pad))
      × (received_value packets pad ≡ (
          if pad == 31
          then value_of h2 pad / 2 * 2 + value_of h1 pad % 2
          else if ltb 31 pad
          then value_of h2 pad
          else value_of h1 pad))
received_pad h1 h2 pad w1 w2 low high small1 small2 lt =
    let a = received_lem h1 h2 (1 + pad * 2) w1 w2 low high (omega arith) in
    let b = received_lem h1 h2 (2 + pad * 2) w1 w2 low high (omega arith) in
    elim (dec_lt pad 31) [
      | yes before ↦ (ground (arith, a), ground (arith, a, b))
      | no behind ↦ elim (dec_lt 31 pad) [
        | yes above ↦ (ground (arith, a), ground (arith, a, b))
        | no at ↦
            let e : pad ≡ 31 = omega arith in
            rw e (received-split h1 h2 w1 w2 low high small1 small2)
      ]
    ]
