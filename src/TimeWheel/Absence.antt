-- ===== src/TimeWheel/Absence.antt =====
-- A number that the time wheel does not hold stays away from it until it is added (pkg/timewheel/wheel.go),
-- so that the numbers still to be issued are free.
use tickraft.Base.{
  ℕ, ◌≡◌, ◌≢◌, refl, ◌∙◌, sym, ◌+◌, ◌%◌, false, List, [], none, some, arith, inl, inr, lookup,
  nat_key, leb, Bool-cases, ◌==◌,
}
use tickraft.TimeWheel.{
  wheel_size, Entry, Location, second_slot, minute_slot, Wheel, add_at, put, remove_entry, cascade,
  advance, collect, forget_all, tick,
}
use tickraft.TimeWheel.Places.{same_place, IsCoherent, Absent, lookup-put, elsewhere_none}
use tickraft.TimeWheel.Loop.{cascade_all_keeps}
use tickraft.TimeWheel.Turn.{
  refill, slot_at-refill, moved, slot_at-moved, moved-IsCoherent, emptied-IsLoose,
  advance-IsCoherent, remove_entry-IsCoherent,
}
use tickraft.TimeWheel.Removal.{slot-remove_entry}

refill-Absent :
    (w : Wheel) (a : Location) (l : List (ℕ × Location)) (id : ℕ)
    → Absent w id
    → Absent (refill w a [] l) id
unfolding lookup
refill-Absent w a l id absent = λ b.
    rw (slot_at-refill w a b [] l) (elim (Bool-cases (same_place a b)) [
      | inl here ↦ rw here refl
      | inr away ↦ rw away (absent b)
    ])

pub moved-Absent : (w : Wheel) (s m id : ℕ) → Absent w id → Absent (moved w s m) id
moved-Absent w s m id absent = λ a. rw (slot_at-moved w s m a) (absent a)

cascade-Absent : (w : Wheel) (now id : ℕ) → IsCoherent w → Absent w id → Absent (cascade w now) id
unfolding cascade
cascade-Absent w now id c absent = λ a.
    let emptied = refill w (minute_slot w.min_ptr) [] w.index in
    let kept =
      cascade_all_keeps emptied now (w.minutes w.min_ptr) a id (emptied-IsLoose w c)
        (absent (minute_slot w.min_ptr)) in
    kept ∙ refill-Absent w (minute_slot w.min_ptr) w.index id absent a

advance-Absent : (w : Wheel) (now id : ℕ) → IsCoherent w → Absent w id → Absent (advance w now) id
unfolding advance
advance-Absent w now id c absent = elim (Bool-cases ((w.sec_ptr + 1) % wheel_size == 0)) [
  | inl full ↦ rw full (
      let s = (w.sec_ptr + 1) % wheel_size in
      let m = (w.min_ptr + 1) % wheel_size in
      cascade-Absent (moved w s m) now id (moved-IsCoherent w s m c) (moved-Absent w s m id absent))
  | inr part ↦ rw part (moved-Absent w ((w.sec_ptr + 1) % wheel_size) w.min_ptr id absent)
]

pub tick-Absent : (w : Wheel) (now id : ℕ) → IsCoherent w → Absent w id → Absent (tick w now).0 id
unfolding tick collect
tick-Absent w now id c absent =
    let v = advance w now in
    refill-Absent v (second_slot v.sec_ptr) (forget_all (v.seconds v.sec_ptr) v.index) id
      (advance-Absent w now id c absent)

-- What a tick takes out of the wheel was in it, and is in no slot any more.
pub uncollected :
    (w : Wheel) (now id : ℕ) → IsCoherent w → Absent w id → lookup id (tick w now).1 ≡ none
unfolding tick collect
uncollected w now id c absent =
    advance-Absent w now id c absent (second_slot (advance w now).sec_ptr)

pub collected :
    (w : Wheel) (now id : ℕ) (e : Entry)
    → IsCoherent w
    → lookup id (tick w now).1 ≡ some e
    → Absent (tick w now).0 id
unfolding tick collect lookup
collected w now id e c h = λ b.
    let v = advance w now in
    let a = second_slot v.sec_ptr in
    rw (slot_at-refill v a b [] (forget_all (v.seconds v.sec_ptr) v.index))
      (elim (Bool-cases (same_place a b)) [
        | inl here ↦ rw here refl
        | inr away ↦ rw away (elsewhere_none v a b id e (advance-IsCoherent w now c) h away)
      ])

put-Absent :
    (w : Wheel) (a : Location) (e : Entry) (other : ℕ)
    → e.id ≢ other
    → Absent w other
    → Absent (put w a e) other
put-Absent w a e other differ absent = λ b.
    let there = lookup-put w a b e other in
    let away = absent b in let apart : e.id == other ≡ false = ground arith in ground arith

pub add_at-Absent :
    (w : Wheel) (id now fire_at callback other : ℕ)
    → id ≢ other
    → Absent w other
    → Absent (add_at w id now fire_at callback).0 other
unfolding add_at
add_at-Absent w id now fire_at callback other differ absent = elim (Bool-cases (leb fire_at now)) [
  | inl due ↦ rw due absent
  | inr later ↦ rw later (put-Absent w _ _ other differ absent)
]

pub remove_entry-Absent :
    (w : Wheel) (other id : ℕ) → IsCoherent w → Absent w id → Absent (remove_entry w other) id
remove_entry-Absent w other id c absent = elim (Bool-cases (other == id)) [
  | inl same ↦
      let eq : other ≡ id = ground arith in rw (sym eq) (remove_entry-IsCoherent w other c).1
  | inr differ ↦ λ a. slot-remove_entry w other id a (ground arith) ∙ absent a
]
