-- ===== src/Catchup/Windows.antt =====
-- `missedSlots` of pkg/task/catchup.go gives the latest of all missed times.
use tickraft.Base.{
  ℕ, zero, suc, ◌≡◌, ◌≤◌, ◌<◌, refl, sym, ◌∙◌, ap, ◌+◌, ◌-◌, ◌/◌, true, false, List, [], ◌∷◌, ◌++◌,
  some, arith, inl, inr, Bool-cases, ltb, leb, ◌==◌, max, length, length-append,
}
use tickraft.Catchup.{
  catchup_max_iterations, Missed, tail, push_slot, cron_loop, or_all_dropped, interval_slots,
  Schedule, schedule_interval, schedule_cron, schedule_other, latest_of_interval, missed_behind,
  missed_slots,
}

abbrev pub drop_first : ℕ → List ℕ → List ℕ
drop_first zero ts = ts
drop_first (suc n) [] = []
drop_first (suc n) (t ∷ ts) = drop_first n ts

-- The latest ten of a list of times, and the number of the others.
abbrev pub latest : List ℕ → Missed
latest ts = record { slots = drop_first (length ts - 10) ts; dropped = length ts - 10 }

-- All times of a schedule from `t` on, up to `now`.
pub data Times (next_after : ℕ → ℕ) (now : ℕ) : ℕ → List ℕ → Type 0 where
  ended : (t : ℕ) → now < t → Times next_after now t []
  one_more :
      (t : ℕ) (ts : List ℕ)
      → t ≤ now
      → Times next_after now (next_after t) ts
      → Times next_after now t (t ∷ ts)

pub length-drop_first : (n : ℕ) (ts : List ℕ) → length (drop_first n ts) ≡ length ts - n
length-drop_first zero ts = omega arith
length-drop_first (suc n) [] = omega arith
length-drop_first (suc n) (t ∷ ts) = omega (arith, length-drop_first n ts)

drop_first-append :
    (n t : ℕ) (ts : List ℕ)
    → n ≤ length ts
    → drop_first n (ts ++ t ∷ []) ≡ drop_first n ts ++ t ∷ []
drop_first-append zero t ts h = refl
drop_first-append (suc n) t [] h = absurd (omega (arith, h))
drop_first-append (suc n) t (u ∷ ts) h = drop_first-append n t ts (omega (arith, h))

tail-drop_first : (n : ℕ) (ts : List ℕ) → tail (drop_first n ts) ≡ drop_first (suc n) ts
tail-drop_first zero [] = refl
tail-drop_first zero (t ∷ ts) = refl
tail-drop_first (suc n) [] = refl
tail-drop_first (suc n) (t ∷ ts) = tail-drop_first n ts

append_assoc : (ts us vs : List ℕ) → (ts ++ us) ++ vs ≡ ts ++ (us ++ vs)
append_assoc [] us vs = refl
append_assoc (t ∷ ts) us vs = ap (λ rest. t ∷ rest) (append_assoc ts us vs)

append_nil : (ts : List ℕ) → ts ++ [] ≡ ts
append_nil [] = refl
append_nil (t ∷ ts) = ap (λ rest. t ∷ rest) (append_nil ts)

abbrev pub missed : List ℕ → ℕ → Missed
missed ts n = record { slots = ts; dropped = n }

missed_eq : (n m : ℕ) (ts us : List ℕ) → n ≡ m → ts ≡ us → missed ts n ≡ missed us m
missed_eq n m ts us p q = rw p (rw q refl)

push_slot-latest : (ts : List ℕ) (t : ℕ) → push_slot (latest ts) t ≡ latest (ts ++ t ∷ [])
unfolding push_slot
push_slot-latest ts t =
    let kept = length-drop_first (length ts - 10) ts in
    let longer = length-append ts (t ∷ []) in
    elim (Bool-cases (length (drop_first (length ts - 10) ts) == 10)) [
      | inl full ↦
          let more : length (ts ++ t ∷ []) - 10 ≡ suc (length ts - 10) = ground arith in
          rw full (
            rw more (
              missed_eq _ _ _ _ (omega arith) (
                ap (λ us. us ++ t ∷ []) (tail-drop_first (length ts - 10) ts)
                ∙ sym (drop_first-append (suc (length ts - 10)) t ts (ground arith)))))
      | inr room ↦
          let none_more : length ts - 10 ≡ 0 = ground arith in
          let still : length (ts ++ t ∷ []) - 10 ≡ 0 = ground arith in
          rw room (rw (still, none_more) refl)
    ]

cron_loop-latest :
    (next_after : ℕ → ℕ) (now n t : ℕ) (ts us : List ℕ)
    → Times next_after now t us
    → length us < n
    → cron_loop next_after n now t (latest ts) ≡ some (latest (ts ++ us))
unfolding cron_loop
cron_loop-latest next_after now zero t ts us times h = absurd (omega (arith, h))
cron_loop-latest next_after now (suc n) t ts [] (ended _ over) h =
    let behind : ltb now t ≡ true = ground (arith, over) in
    rw behind (ap (λ us. some (latest us)) (sym (append_nil ts)))
cron_loop-latest next_after now (suc n) t ts (_ ∷ us) (one_more _ _ inside rest) h =
    let ahead : ltb now t ≡ false = ground (arith, inside) in
    rw ahead (
      rw (push_slot-latest ts t) (
        cron_loop-latest next_after now n (next_after t) (ts ++ t ∷ []) us rest (omega (arith, h))
        ∙ ap (λ vs. some (latest vs)) (append_assoc ts (t ∷ []) us)))

length-interval_slots :
    (watermark interval first n : ℕ) → length (interval_slots watermark interval first n) ≡ n
unfolding interval_slots
length-interval_slots watermark interval first zero = refl
length-interval_slots watermark interval first (suc n) =
    ap suc (length-interval_slots watermark interval (first + 1) n)

drop_first-interval_slots :
    (k watermark interval first n : ℕ)
    → k ≤ n
    → drop_first k (interval_slots watermark interval first n)
      ≡ interval_slots watermark interval (first + k) (n - k)
unfolding interval_slots
drop_first-interval_slots zero watermark interval first n h =
    let same : first ≡ first + 0 = omega arith in
    let all : n ≡ n - 0 = omega arith in
    ap (λ a. interval_slots watermark interval a n) same
    ∙ ap (interval_slots watermark interval (first + 0)) all
drop_first-interval_slots (suc k) watermark interval first zero h = absurd (omega (arith, h))
drop_first-interval_slots (suc k) watermark interval first (suc n) h =
    let further : first + 1 + k ≡ first + suc k = omega arith in
    let fewer : n - k ≡ suc n - suc k = omega arith in
    drop_first-interval_slots k watermark interval (first + 1) n (omega (arith, h))
    ∙ ap (λ a. interval_slots watermark interval a (n - k)) further
    ∙ ap (interval_slots watermark interval (first + suc k)) fewer

latest_of_interval-latest :
    (watermark interval total : ℕ)
    → 0 < total
    → latest_of_interval watermark interval total
      ≡ latest (interval_slots watermark interval 1 total)
unfolding latest_of_interval
latest_of_interval-latest watermark interval total h =
    let all = length-interval_slots watermark interval 1 total in
    let first = max (total + 1 - 10) 1 in
    let start : 1 + (total - 10) ≡ first = omega arith in
    let rest : total - (total - 10) ≡ total + 1 - first = omega arith in
    rw all (
      missed_eq (total - (total + 1 - first)) (total - 10) _ _ (omega arith) (
        sym (
          drop_first-interval_slots (total - 10) watermark interval 1 total (omega arith)
          ∙ ap (λ a. interval_slots watermark interval a (total - (total - 10))) start
          ∙ ap (interval_slots watermark interval first) rest)))

-- The times that a schedule has between the watermark and now: for a cron schedule fewer than the limit of
-- the loop.
abbrev pub AllMissed : Schedule → ℕ → ℕ → List ℕ → Type 0
AllMissed (schedule_interval interval) watermark now ts =
    (0 < interval) × (ts ≡ interval_slots watermark interval 1 ((now - watermark) / interval))
AllMissed (schedule_cron next_after) watermark now ts =
    Times next_after now (next_after watermark) ts × (length ts < catchup_max_iterations)
AllMissed schedule_other watermark now ts = ts ≡ []

-- When `ts` are all times that a schedule has missed since the watermark (fewer than the limit of the loop,
-- for a cron schedule), `missedSlots` gives the latest ten of them in their order, or all if there are fewer,
-- and counts the others as dropped.
pub missed_slots-latest :
    (s : Schedule) (watermark now : ℕ) (ts : List ℕ)
    → watermark < now
    → AllMissed s watermark now ts
    → missed_slots s watermark now ≡ latest ts
unfolding missed_slots missed_behind interval_slots
missed_slots-latest (schedule_cron next_after) watermark now ts early (times, few) =
    let before : leb now watermark ≡ false = ground (arith, early) in
    rw before (
      ap or_all_dropped (
        cron_loop-latest next_after now catchup_max_iterations (next_after watermark) [] ts times
          few))
missed_slots-latest schedule_other watermark now ts early empty =
    let before : leb now watermark ≡ false = ground (arith, early) in rw before (rw empty refl)
missed_slots-latest (schedule_interval interval) watermark now ts early (some_interval, all) =
    let before : leb now watermark ≡ false = ground (arith, early) in
    let not_zero : (interval == 0) ≡ false = ground (arith, some_interval) in
    rw before (
      rw not_zero (
        rw all (elim (Bool-cases ((now - watermark) / interval == 0)) [
          | inl short ↦
              let no_slot : (now - watermark) / interval ≡ 0 = ground arith in
              rw short (rw no_slot refl)
          | inr long ↦ rw long (
              latest_of_interval-latest watermark interval ((now - watermark) / interval)
                (ground arith))
        ])))
