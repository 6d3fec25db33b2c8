-- ===== src/TimeWheel/Deadline/Schedule.antt =====
-- An entry that `AddAt` registers fires once, near its time (pkg/timewheel/wheel.go), as long as the wheel
-- ticks each second.
use tickraft.Base.{
  ℕ, zero, suc, ◌≡◌, ◌<◌, ◌≤◌, refl, ◌+◌, ◌*◌, ◌-◌, ◌/◌, ◌%◌, some, none, false, arith, inl, inr,
  lookup, nat_key, Bool-cases, ltb, leb, ltb→lt, ltb→ge,
}
use tickraft.TimeWheel.{
  nanos, second_slot, minute_slot, Entry, Wheel, put, slot_for, delay_seconds, add_at, advance,
  collect, tick,
}
use tickraft.TimeWheel.Places.{
  slot_at, same_place_refl, IsCoherent, Absent, lookup-put, put-IsCoherent,
}
use tickraft.TimeWheel.Turn.{advance-IsCoherent, collect-IsCoherent}
use tickraft.TimeWheel.Loop.{pointers-put}
use tickraft.TimeWheel.Deadline.{fired, Due}
use tickraft.TimeWheel.Deadline.Advance.{advance-Due, advance_bound, collect_later, collect_now}

module _ (id : ℕ) (e : Entry) where
  earlier :
      (k : ℕ) (w : Wheel) (last : ℕ)
      → lookup id (collect (advance w (last + nanos))).1 ≡ none
      → ((i : ℕ)
          → i < k
          → lookup id (fired i (collect (advance w (last + nanos))).0 (last + nanos)) ≡ none)
      → (i : ℕ) → i < suc k
      → lookup id (fired i w last) ≡ none
  unfolding fired tick
  earlier k w last quiet before zero h = quiet
  earlier k w last quiet before (suc i) h = before i (omega (arith, h))

  fired_on_time :
      (k : ℕ) (w : Wheel) (last : ℕ)
      → IsCoherent w
      → w.sec_ptr < 60
      → Due id e w (suc k) last
      → (lookup id (fired k w last) ≡ some e)
        × ((i : ℕ) → i < k → lookup id (fired i w last) ≡ none)
  unfolding fired tick collect
  fired_on_time zero w last c bound d =
      let now = last + nanos in
      (
        collect_now id e (advance w now) now (advance_bound id e w now)
            (advance-Due id e w 0 last c bound d),
        λ i before. absurd (omega (arith, before)),
      )
  fired_on_time (suc k) w last c bound d =
      let now = last + nanos in
      let v = advance w now in
      let c' = advance-IsCoherent w now c in
      let (due, quiet) =
        collect_later id e v k now c' (advance_bound id e w now)
          (advance-Due id e w (suc k) last c bound d) in
      let (at_time, before) =
        fired_on_time k (collect v).0 now (collect-IsCoherent v c') (advance_bound id e w now)
          due in
      (at_time, earlier k w last quiet before)

-- The delay: whole seconds, rounded down, and 1 at least.
delay_seconds_lem :
    (now fire_at : ℕ)
    → now < fire_at
    → (1 ≤ delay_seconds now fire_at)
      × (delay_seconds now fire_at * nanos < fire_at - now + nanos)
      × (2 ≤ delay_seconds now fire_at → delay_seconds now fire_at ≡ (fire_at - now) / nanos)
      × (fire_at - now < delay_seconds now fire_at * nanos + nanos)
unfolding delay_seconds
delay_seconds_lem now fire_at ahead = omega (arith, ahead)

put_second-Due :
    (w : Wheel) (q last : ℕ) (e : Entry)
    → q < 60
    → Due e.id e (put w (second_slot ((w.sec_ptr + q) % 60)) e) q last
put_second-Due w q last e few =
    let a = second_slot ((w.sec_ptr + q) % 60) in
    let (sec, min) = pointers-put w a e in
    let put_there = lookup-put w a a e e.id in
    let own = same_place_refl a in
    let there : lookup e.id (slot_at (put w a e) a) ≡ some e = ground arith in
    inl (few, rw sec there)

put_minute-Due :
    (w : Wheel) (j q last : ℕ) (e : Entry)
    → 1 ≤ j
    → 60 * j ≤ q + w.sec_ptr
    → (e.expire_at - last) / nanos ≡ q
    → Due e.id e (put w (minute_slot ((w.min_ptr + j) % 60)) e) q last
put_minute-Due w j q last e some_turns reached remains =
    let a = minute_slot ((w.min_ptr + j) % 60) in
    let (sec, min) = pointers-put w a e in
    let put_there = lookup-put w a a e e.id in
    let own = same_place_refl a in
    let there : lookup e.id (slot_at (put w a e) a) ≡ some e = ground arith in
    inr (j, some_turns, rw sec reached, remains, rw min there)

-- The tick at which the entry fires, counted from 0, and the two bounds on its time.
pub record Fires (id : ℕ) (e : Entry) (w : Wheel) (last : ℕ) : Type 0 where
  pub round : ℕ
  pub at_round : lookup id (fired round w last) ≡ some e
  pub not_before : (i : ℕ) → i < round → lookup id (fired i w last) ≡ none
  pub not_late : last + (round + 1) * nanos < e.expire_at + nanos
  pub not_early : e.expire_at < last + (round + 3) * nanos

-- The entry is due at some tick to come, and that tick is near its time.
pub record IsPlanned (id : ℕ) (e : Entry) (w : Wheel) (last : ℕ) : Type 0 where
  pub coherent : IsCoherent w
  pub bound : w.sec_ptr < 60
  pub ticks : ℕ
  pub due : Due id e w ticks last
  pub some_ticks : 1 ≤ ticks
  pub not_late : last + ticks * nanos < e.expire_at + nanos
  pub not_early : e.expire_at < last + (ticks + 2) * nanos

plan-IsPlanned :
    (w : Wheel) (id : ℕ) (e : Entry) (last q : ℕ)
    → IsCoherent w
    → w.sec_ptr < 60
    → Due id e w q last
    → 1 ≤ q
    → last + q * nanos < e.expire_at + nanos
    → e.expire_at < last + (q + 2) * nanos
    → IsPlanned id e w last
plan-IsPlanned w id e last q c bound d some_ticks late early = record {
  coherent = c;
  bound = bound;
  ticks = q;
  due = d;
  some_ticks = some_ticks;
  not_late = late;
  not_early = early;
}

Due-Fires :
    (w : Wheel) (id : ℕ) (e : Entry) (last q : ℕ)
    → IsCoherent w
    → w.sec_ptr < 60
    → Due id e w q last
    → 1 ≤ q
    → last + q * nanos < e.expire_at + nanos
    → e.expire_at < last + (q + 2) * nanos
    → Fires id e w last
Due-Fires w id e last zero c bound d some_ticks late early = absurd (omega (arith, some_ticks))
Due-Fires w id e last (suc k) c bound d some_ticks late early =
    let (at_round, not_before) = fired_on_time id e k w last c bound d in
    record {
      round = k;
      at_round = at_round;
      not_before = not_before;
      not_late = omega (arith, late);
      not_early = omega (arith, early);
    }

pub IsPlanned-Fires :
    (w : Wheel) (id : ℕ) (e : Entry) (last : ℕ) → IsPlanned id e w last → Fires id e w last
IsPlanned-Fires w id e last p =
    Due-Fires w id e last p.ticks p.coherent p.bound p.due p.some_ticks p.not_late p.not_early

pub add_at-IsPlanned :
    (w : Wheel) (id last now fire_at callback : ℕ)
    → IsCoherent w
    → w.sec_ptr < 60
    → Absent w id
    → last ≤ now
    → now < last + nanos
    → now < fire_at
    → IsPlanned id
        (record { id = id; callback = callback; expire_at = fire_at })
        (add_at w id now fire_at callback).0
        last
unfolding add_at slot_for
add_at-IsPlanned w id last now fire_at callback c bound absent since until ahead =
    let t = delay_seconds now fire_at in
    let e : Entry = record { id = id; callback = callback; expire_at = fire_at } in
    let facts = delay_seconds_lem now fire_at ahead in
    let later : leb fire_at now ≡ false = ground arith in
    rw later (elim (Bool-cases (ltb t 60)) [
      | inl minute ↦
          let small = ltb→lt t 60 minute in
          rw minute (
            plan-IsPlanned (put w (second_slot ((w.sec_ptr + t) % 60)) e) id e last t
              (put-IsCoherent w _ e c absent)
              (rw (pointers-put w (second_slot ((w.sec_ptr + t) % 60)) e).0 bound)
              (put_second-Due w t last e small) facts.0 (omega (arith, facts, ahead, since))
              (omega (arith, facts, until)))
      | inr more ↦
          let large = ltb→ge t 60 more in
          let whole = facts.2 (omega (arith, large)) in
          let q = (fire_at - last) / nanos in
          let enough : t ≤ q = omega (arith, whole, since) in
          rw more (
            plan-IsPlanned (put w (minute_slot ((w.min_ptr + t / 60) % 60)) e) id e last q
              (put-IsCoherent w _ e c absent)
              (rw (pointers-put w (minute_slot ((w.min_ptr + t / 60) % 60)) e).0 bound)
              (put_minute-Due w (t / 60) q last e (omega (arith, large)) (omega (arith, enough))
                refl)
              (omega (arith, large, enough)) (omega (arith, ahead, since))
              (omega (arith, ahead, since)))
    ])

-- On a wheel whose index and slots agree, whose pointer is below 60 and which holds no entry of the new
-- number: an entry for a time still to come, added less than a second after the last tick, is submitted
-- by one tick when the wheel ticks each second from then on and nothing else is called, and by no
-- earlier one, however far away the time is. That tick is less than a second after the time of the
-- entry, and less than two seconds before it.
pub add_at-Fires :
    (w : Wheel) (id last now fire_at callback : ℕ)
    → IsCoherent w
    → w.sec_ptr < 60
    → Absent w id
    → last ≤ now
    → now < last + nanos
    → now < fire_at
    → Fires id
        (record { id = id; callback = callback; expire_at = fire_at })
        (add_at w id now fire_at callback).0
        last
add_at-Fires w id last now fire_at callback c bound absent since until ahead =
    IsPlanned-Fires (add_at w id now fire_at callback).0 id _ last
      (add_at-IsPlanned w id last now fire_at callback c bound absent since until ahead)
