-- ===== src/Play/Standby.antt =====
-- SphereWare/SphereWare.c: the timer interrupt, which raises the thresholds of the pads when
-- nothing has been played for a while.
use sphere_ware.Base.{
  ℕ, zero, suc, ◌+◌, ◌<◌, ◌≤◌, ◌≡◌, Bool, true, false, not, ◌&&◌, ◌||◌, leb, ltb, if◌then◌else◌,
  update, add16, sub16, for_range, arith, refl, dec_lt, ap, ◌∙◌, ◌%◌,
}
use sphere_ware.Play.State.{Pads}

-- Whether any of the flags from `i` on, `n` of them, is set: the loop over `any_played`.
unfoldable pub any_from : ℕ → ℕ → (ℕ → Bool) → Bool → Bool
any_from zero i flags any = any
any_from (suc n) i flags any = any_from n (suc i) flags (any || flags i)

-- `init_val[pad] += 100` and `init_val[pad] -= 100` for the `n` pads from `i` on.
unfoldable pub raise_from : ℕ → ℕ → (ℕ → ℕ) → ℕ → ℕ
raise_from n i f = for_range n i (λ k g. update g k (add16 (g k) 100)) f

unfoldable pub lower_from : ℕ → ℕ → (ℕ → ℕ) → ℕ → ℕ
lower_from n i f = for_range n i (λ k g. update g k (sub16 (g k) 100)) f

-- ISR(TIMER1_COMPA_vect), up to the calls that serve the USB interface.
unfoldable pub tick : Pads → Pads
tick p =
    if not (any_from 54 0 p.being_played false)
    then (let count = p.idle_count + 1 in
        if ltb 20000 count
        then (if p.thresholds_raised then record p { idle_count = 0 } else record p {
          idle_count = 0;
          init_val = raise_from 48 0 p.init_val;
          thresholds_raised = true;
        })
        else record p { idle_count = count })
    else if p.thresholds_raised
    then record p {
      idle_count = 0;
      init_val = lower_from 48 0 p.init_val;
      thresholds_raised = false;
    }
    else record p { idle_count = 0 }

pub raise_from_lem :
    (n i q : ℕ) (f : ℕ → ℕ)
    → raise_from n i f q ≡ (if leb i q && ltb q (i + n) then add16 (f q) 100 else f q)
unfolding raise_from
raise_from_lem zero i q f = ground arith
raise_from_lem (suc n) i q f =
    ground (arith, raise_from_lem n (suc i) q (update f i (add16 (f i) 100)))

pub lower_from_lem :
    (n i q : ℕ) (f : ℕ → ℕ)
    → lower_from n i f q ≡ (if leb i q && ltb q (i + n) then sub16 (f q) 100 else f q)
unfolding lower_from
lower_from_lem zero i q f = ground arith
lower_from_lem (suc n) i q f =
    ground (arith, lower_from_lem n (suc i) q (update f i (sub16 (f i) 100)))

-- Nothing is being played.
abbrev pub IsIdle : Pads → Type 0
IsIdle p = (i : ℕ) → i < 54 → p.being_played i ≡ false

any_from_idle :
    (n i : ℕ) (flags : ℕ → Bool)
    → ((k : ℕ) → k < i + n → flags k ≡ false)
    → any_from n i flags false ≡ false
unfolding any_from
any_from_idle zero i flags h = refl
any_from_idle (suc n) i flags h =
    rw (h i (omega arith)) (any_from_idle n (suc i) flags (λ k lt. h k (omega arith)))

any_from-true : (n i : ℕ) (flags : ℕ → Bool) → any_from n i flags true ≡ true
unfolding any_from
any_from-true zero i flags = refl
any_from-true (suc n) i flags = any_from-true n (suc i) flags

pub any_from_found :
    (n i k : ℕ) (flags : ℕ → Bool) (any : Bool)
    → i ≤ k
    → k < i + n
    → flags k ≡ true
    → any_from n i flags any ≡ true
unfolding any_from
any_from_found zero i k flags any lo hi e = absurd (omega arith)
any_from_found (suc n) i k flags any lo hi e = elim (dec_lt i k) [
  | yes later ↦ any_from_found n (suc i) k flags (any || flags i) (omega arith) (omega arith) e
  | no now ↦
      let same : i ≡ k = omega arith in
      let on : (any || flags i) ≡ true = rw same (ground arith) in
      rw on (any_from-true n (suc i) flags)
]

unfoldable pub ticks : ℕ → Pads → Pads
ticks zero p = p
ticks (suc n) p = ticks n (tick p)

tick_waits :
    (p : Pads)
    → IsIdle p
    → p.idle_count < 20000
    → tick p ≡ record p { idle_count = p.idle_count + 1 }
unfolding tick
tick_waits p idle h = ground (arith, any_from_idle 54 0 p.being_played idle)

tick_raises :
    (p : Pads)
    → IsIdle p
    → p.idle_count ≡ 20000
    → p.thresholds_raised ≡ false
    → tick p
      ≡ record p { idle_count = 0; init_val = raise_from 48 0 p.init_val; thresholds_raised = true }
unfolding tick
tick_raises p idle e low = ground (arith, any_from_idle 54 0 p.being_played idle)

ticks_raise :
    (n : ℕ) (p : Pads)
    → IsIdle p
    → p.thresholds_raised ≡ false
    → p.idle_count ≤ 20000
    → p.idle_count + n ≤ 20001
    → let raised = ltb 20000 (p.idle_count + n) in
      ((ticks n p).init_val ≡ (if raised then raise_from 48 0 p.init_val else p.init_val))
      × ((ticks n p).thresholds_raised ≡ raised)
unfolding ticks
ticks_raise zero p idle low early bound = ground arith
ticks_raise (suc n) p idle low early bound = elim (dec_lt p.idle_count 20000) [
  | yes before ↦
      let p1 = record p { idle_count = p.idle_count + 1 } in
      rw (ticks, tick_waits p idle before)
        (ground (arith, ticks_raise n p1 idle low (omega arith) (omega arith)))
  | no last ↦
      let e : n ≡ 0 = omega arith in
      rw (e, ticks, tick_raises p idle (omega arith) low) (ground arith)
]

-- Standby: with the thresholds not raised and the count at most 20000, `n` interrupts in a row with
-- nothing played leave the thresholds alone while the count does not pass 20000. The one with which
-- it passes 20000 adds 100, in 16 bits, to the threshold of each of the 48 pads.
pub ticks_idle :
    (n : ℕ) (p : Pads) (pad : ℕ)
    → IsIdle p
    → p.thresholds_raised ≡ false
    → p.idle_count ≤ 20000
    → p.idle_count + n ≤ 20001
    → pad < 48
    → let raised = ltb 20000 (p.idle_count + n) in
      ((ticks n p).init_val pad
        ≡ (if raised then (p.init_val pad + 100) % 65536 else p.init_val pad))
      × ((ticks n p).thresholds_raised ≡ raised)
ticks_idle n p pad idle low early bound lt =
    let (thresholds, raised) = ticks_raise n p idle low early bound in
    (ap (λ f. f pad) thresholds ∙ ground (arith, raise_from_lem 48 0 pad p.init_val), raised)
