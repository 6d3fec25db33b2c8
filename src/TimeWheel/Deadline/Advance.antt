-- ===== src/TimeWheel/Deadline/Advance.antt =====
-- One tick of the time wheel brings every entry one second closer (pkg/timewheel/wheel.go, `tick`).
use tickraft.Base.{
  ℕ, suc, ◌≡◌, ◌≢◌, ◌<◌, ◌≤◌, refl, ◌∙◌, ◌+◌, ◌-◌, ◌/◌, ◌%◌, false, [], some, none, arith, inl, inr,
  lookup, nat_key, Bool-cases, ◌==◌,
}
use tickraft.TimeWheel.{
  nanos, Entry, Location, second_slot, minute_slot, Wheel, cascade_all, cascade, advance, collect,
  forget_all,
}
use tickraft.TimeWheel.Places.{slot_at, same_place, same_place_sym, IsCoherent, elsewhere_none}
use tickraft.TimeWheel.Loop.{pointers-cascade_all, cascade_all_keeps, cascade_all_places}
use tickraft.TimeWheel.Turn.{refill, slot_at-refill, moved, moved-IsCoherent, emptied-IsLoose}
use tickraft.TimeWheel.Deadline.{Due, landing}

module _ (id : ℕ) (e : Entry) where
  -- The cascade, on a wheel whose seconds pointer is back at 0.
  kept_by_cascade :
      (w : Wheel) (now : ℕ) (a : Location)
      → IsCoherent w
      → lookup id (slot_at w a) ≡ some e
      → same_place a (minute_slot w.min_ptr) ≡ false
      → lookup id (slot_at (cascade w now) a) ≡ some e
  unfolding cascade
  kept_by_cascade w now a c h away =
      let emptied = refill w (minute_slot w.min_ptr) [] w.index in
      let gone = elsewhere_none w a (minute_slot w.min_ptr) id e c h away in
      let kept =
        cascade_all_keeps emptied now (w.minutes w.min_ptr) a id (emptied-IsLoose w c) gone in
      let there = slot_at-refill w (minute_slot w.min_ptr) a [] w.index in
      let flip = same_place_sym (minute_slot w.min_ptr) a ∙ away in
      let same : slot_at emptied a ≡ slot_at w a = rw flip at there in kept ∙ rw same h

  placed_by_cascade :
      (w : Wheel) (now q : ℕ)
      → IsCoherent w
      → w.sec_ptr < 60
      → lookup id (w.minutes w.min_ptr) ≡ some e
      → (e.expire_at - now) / nanos ≡ q
      → Due id e (cascade w now) q now
  unfolding cascade
  placed_by_cascade w now q c bound h remains =
      let emptied = refill w (minute_slot w.min_ptr) [] w.index in
      let placed =
        cascade_all_places emptied now (w.minutes w.min_ptr) id e (emptied-IsLoose w c) h in
      let pointers = pointers-cascade_all emptied now (w.minutes w.min_ptr) in
      landing id e emptied (cascade_all emptied now (w.minutes w.min_ptr)) q now pointers bound
        remains (rw remains at placed)

  -- The pointers move, and no cascade: a round of the seconds wheel goes on.
  within_round :
      (w : Wheel) (q last : ℕ)
      → w.sec_ptr < 59
      → Due id e w (suc q) last
      → Due id e (moved w ((w.sec_ptr + 1) % 60) w.min_ptr) q (last + nanos)
  within_round w q last bound (inl (near, there)) =
      let place : ((w.sec_ptr + 1) % 60 + q) % 60 ≡ (w.sec_ptr + suc q) % 60 =
        omega (arith, bound) in
      inl (omega arith, rw place there)
  within_round w q last bound (inr (j, some_turns, reached, remains, there)) =
      inr (j, some_turns, omega arith, omega (arith, remains, reached, bound, some_turns), there)

  pointers-cascade :
      (w : Wheel) (now : ℕ)
      → ((cascade w now).sec_ptr ≡ w.sec_ptr) × ((cascade w now).min_ptr ≡ w.min_ptr)
  unfolding cascade
  pointers-cascade w now =
      pointers-cascade_all (refill w (minute_slot w.min_ptr) [] w.index) now (w.minutes w.min_ptr)

  two_turns : (m j : ℕ) → 1 ≤ j → (m + j) % 60 ≢ (m + 1) % 60 → 2 ≤ j
  two_turns m j some_turns apart = elim (Bool-cases (j == 1)) [
    | inl one ↦ let e' : j ≡ 1 = ground arith in absurd (apart (rw e' refl))
    | inr many ↦ ground arith
  ]

  -- The round ends: the minutes wheel moves on too.
  next_round :
      (w : Wheel) (q last : ℕ)
      → IsCoherent w
      → w.sec_ptr ≡ 59
      → Due id e w (suc q) last
      → Due id e (cascade (moved w 0 ((w.min_ptr + 1) % 60)) (last + nanos)) q (last + nanos)
  next_round w q last c full (inl (near, there)) =
      let v = moved w 0 ((w.min_ptr + 1) % 60) in
      let place : (w.sec_ptr + suc q) % 60 ≡ q = omega (arith, near, full) in
      let held : lookup id (w.seconds q) ≡ some e = rw place at there in
      let kept =
        kept_by_cascade v (last + nanos) (second_slot q) (moved-IsCoherent w 0 _ c) held refl in
      let ptr = (pointers-cascade v (last + nanos)).0 in
      let reach : ((cascade v (last + nanos)).sec_ptr + q) % 60 ≡ q = omega (arith, ptr, near) in
      inl (omega arith, rw reach kept)
  next_round w q last c full (inr (j, some_turns, reached, remains, there)) =
      let v = moved w 0 ((w.min_ptr + 1) % 60) in
      let left : (e.expire_at - (last + nanos)) / nanos ≡ q = omega (arith, remains) in
      elim (Bool-cases ((w.min_ptr + j) % 60 == (w.min_ptr + 1) % 60)) [
        | inl hit ↦
            let place : (w.min_ptr + j) % 60 ≡ (w.min_ptr + 1) % 60 = ground arith in
            placed_by_cascade v (last + nanos) q (moved-IsCoherent w 0 _ c) (omega arith)
              (rw place at there) left
        | inr miss ↦
            let kept =
              kept_by_cascade v (last + nanos) (minute_slot ((w.min_ptr + j) % 60))
                (moved-IsCoherent w 0 _ c) there miss in
            let (sec, min) = pointers-cascade v (last + nanos) in
            let apart : (w.min_ptr + j) % 60 ≢ (w.min_ptr + 1) % 60 = ground arith in
            let more : 2 ≤ j = two_turns w.min_ptr j some_turns apart in
            let reach : ((cascade v (last + nanos)).min_ptr + (j - 1)) % 60 ≡ (w.min_ptr + j) % 60 =
              omega (arith, min, more) in
            inr (j - 1, omega (arith, more), omega (arith, sec, reached, full), left, rw reach kept)
      ]

  -- Before its time an entry is not among those that the tick takes, and stays.
  pub collect_later :
      (w : Wheel) (q last : ℕ)
      → IsCoherent w
      → w.sec_ptr < 60
      → Due id e w (suc q) last
      → Due id e (collect w).0 (suc q) last × (lookup id (collect w).1 ≡ none)
  unfolding collect
  collect_later w q last c bound (inl (near, there)) =
      let place = (w.sec_ptr + suc q) % 60 in
      let differ : place ≢ w.sec_ptr = λ eq. omega (arith, eq, near, bound) in
      let apart : (place == w.sec_ptr) ≡ false = ground arith in
      let flip : (w.sec_ptr == place) ≡ false = ground arith in
      let left =
        slot_at-refill w (second_slot w.sec_ptr) (second_slot place) []
          (forget_all (w.seconds w.sec_ptr) w.index) in
      (
        inl (near, rw left (rw flip there)),
        elsewhere_none w (second_slot ((w.sec_ptr + suc q) % 60)) (second_slot w.sec_ptr) id e c
            there apart,
      )
  collect_later w q last c bound (inr (j, some_turns, reached, remains, there)) = (
    inr (j, some_turns, reached, remains, there),
    elsewhere_none w (minute_slot ((w.min_ptr + j) % 60)) (second_slot w.sec_ptr) id e c there refl,
  )

  -- At its time it is.
  pub collect_now :
      (w : Wheel) (last : ℕ) → w.sec_ptr < 60 → Due id e w 0 last → lookup id (collect w).1 ≡ some e
  unfolding collect
  collect_now w last bound (inl (near, there)) =
      let place : (w.sec_ptr + 0) % 60 ≡ w.sec_ptr = omega (arith, bound) in rw place at there
  collect_now w last bound (inr (j, some_turns, reached, remains, there)) =
      absurd (omega (arith, some_turns, reached, bound))

  pub advance-Due :
      (w : Wheel) (q last : ℕ)
      → IsCoherent w
      → w.sec_ptr < 60
      → Due id e w (suc q) last
      → Due id e (advance w (last + nanos)) q (last + nanos)
  unfolding advance
  advance-Due w q last c bound d = elim (Bool-cases ((w.sec_ptr + 1) % 60 == 0)) [
    | inl full ↦
        let turned : (w.sec_ptr + 1) % 60 ≡ 0 = ground arith in
        let moved_on : Due id e
            (cascade (moved w ((w.sec_ptr + 1) % 60) ((w.min_ptr + 1) % 60)) (last + nanos)) q
            (last + nanos) =
          rw turned (next_round w q last c (omega (arith, turned, bound)) d) in
        rw full moved_on
    | inr part ↦
        let inside : (w.sec_ptr + 1) % 60 ≢ 0 = ground arith in
        rw part (within_round w q last (omega (arith, inside, bound)) d)
  ]

  pub advance_bound : (w : Wheel) (now : ℕ) → (advance w now).sec_ptr < 60
  unfolding advance
  advance_bound w now = elim (Bool-cases ((w.sec_ptr + 1) % 60 == 0)) [
    | inl full ↦ rw full (
        let ptr =
          (pointers-cascade (moved w ((w.sec_ptr + 1) % 60) ((w.min_ptr + 1) % 60)) now).0 in
        omega (arith, ptr))
    | inr part ↦ rw part (omega arith)
  ]
