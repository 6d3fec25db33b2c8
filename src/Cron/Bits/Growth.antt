-- ===== src/Cron/Bits/Growth.antt =====
-- `fillRange` loses no bit and sets none above its end, whatever its step (pkg/cron/parser.go).
use tickraft.Base.{
  ℕ, zero, suc, ◌≤◌, ◌<◌, ◌≡◌, refl, ◌∙◌, true, ltb, arith, Bool-cases, inl, inr, ℤ, pos, negsuc,
  leb_ℤ,
}
use tickraft.Cron.Bits.{bit_match, set_bit, set_bit_for, add_int, fill_range}
use tickraft.Cron.Bits.Laws.{bit_match-set_bit}

-- What filling a range does to a mask: no bit is lost, and none above `last` is won.
pub record Grows (last mask mask' : ℕ) : Type 0 where
  pub keeps : (w : ℕ) → bit_match mask w ≡ true → bit_match mask' w ≡ true
  pub above : (w : ℕ) → last < w → bit_match mask' w ≡ bit_match mask w

pub Grows-refl : (last mask : ℕ) → Grows last mask mask
Grows-refl last mask = record { keeps = λ w h. h; above = λ w h. refl }

pub Grows-trans : {last a b c : ℕ} → Grows last a b → Grows last b c → Grows last a c
Grows-trans g h = record {
  keeps = λ w e. h.keeps w (g.keeps w e);
  above = λ w e. h.above w e ∙ g.above w e;
}

pub Grows-mono : {last last' a b : ℕ} → last ≤ last' → Grows last a b → Grows last' a b
Grows-mono h g = record { keeps = g.keeps; above = λ w e. g.above w (omega arith) }

set_bit_for-Grows :
    (mask last : ℕ) (v : ℤ) → leb_ℤ v (pos last) ≡ true → Grows last mask (set_bit_for mask v)
unfolding set_bit_for
set_bit_for-Grows mask last (negsuc n) h = Grows-refl last mask
set_bit_for-Grows mask last (pos v) h = elim (Bool-cases (ltb v 64)) [
  | inl small ↦ rw small (record {
    keeps = λ w e. ground (arith, bit_match-set_bit mask v w);
    above = λ w e. ground (arith, bit_match-set_bit mask v w);
  })
  | inr large ↦ rw large (Grows-refl last mask)
]

pub fill_range-Grows :
    (f mask last step : ℕ) (v : ℤ) → Grows last mask (fill_range f mask v (pos last) step)
unfolding fill_range
fill_range-Grows zero mask last step v = Grows-refl last mask
fill_range-Grows (suc f) mask last step v = elim (Bool-cases (leb_ℤ v (pos last))) [
  | inl more ↦ rw more (
      Grows-trans (set_bit_for-Grows mask last v more)
        (fill_range-Grows f (set_bit_for mask v) last step (add_int v (pos step))))
  | inr done ↦ rw done (Grows-refl last mask)
]

pub fill_range_first :
    (f mask last step v : ℕ)
    → v ≤ last
    → v < 64
    → bit_match (fill_range (suc f) mask (pos v) (pos last) step) v ≡ true
unfolding fill_range set_bit_for
fill_range_first f mask last step v h k =
    let set : bit_match (set_bit mask v) v ≡ true = ground (arith, bit_match-set_bit mask v v) in
    let kept =
      (fill_range-Grows f (set_bit mask v) last step (add_int (pos v) (pos step))).keeps v set in
    ground arith
