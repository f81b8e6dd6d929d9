-- ===== src/Ports/Range.antt =====
-- SphereWare/MUX.c and SphereWare/R2R.c: lemmas on the range of the port registers.
use sphere_ware.Base.{ℕ, ◌<◌, ◌≡◌, Bool, true, ◌&&◌, ltb, ltb→lt, both, arith, refl}
use sphere_ware.Base.Bits.{all_below}
use sphere_ware.Ports.Pins.{Ports, IsPorts}
use sphere_ware.Ports.Mux.{select, select_b, select_d, select_f, from_table}
use sphere_ware.Ports.Ladder.{write, write_lem}

byte_test : ℕ → ℕ → Bool
byte_test c p = ltb (select_b c p) 256 && (ltb (select_d c p) 256 && ltb (select_f c p) 256)

byte_table : all_below 48 (λ c. all_below 256 (byte_test c)) ≡ true
unfolding all_below byte_test select_b select_d select_f
byte_table = refl

select_bytes :
    (c p : ℕ)
    → c < 48
    → p < 256
    → (select_b c p < 256) × (select_d c p < 256) × (select_f c p < 256)
unfolding byte_test
select_bytes c p hc hp =
    let (t0, r0) = both _ _ (from_table byte_test byte_table c p hc hp) in
    let (t1, t2) = both _ _ r0 in (ltb→lt _ _ t0, ltb→lt _ _ t1, ltb→lt _ _ t2)

pub select-IsPorts :
    (channel : ℕ) (p : Ports) → channel < 48 → IsPorts p → IsPorts (select channel p)
unfolding select
select-IsPorts channel p h v = record {
  b = (select_bytes channel p.portb h v.b).0;
  d = (select_bytes channel p.portd h v.d).1;
  f = (select_bytes channel p.portf h v.f).2;
}

pub write-IsPorts : (val : ℕ) (p : Ports) → IsPorts p → IsPorts (write val p)
write-IsPorts val p v =
    let w = write_lem val p v in
    record { b = omega (arith, w.1, v.b); d = omega (arith, w.4, v.d); f = omega (arith, w.3, v.f) }
