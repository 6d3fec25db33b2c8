-- ===== src/TimeWheel/Removal.antt =====
-- An entry of the time wheel stays due when another one is removed (pkg/timewheel/wheel.go, `Remove`).
use tickraft.Base.{
  ℕ, ◌≡◌, ◌≢◌, refl, ◌∙◌, ◌+◌, false, Option, some, none, arith, inl, inr, lookup, remove, nat_key,
  lookup-remove, Bool-cases, ◌==◌, ◌%◌,
}
use tickraft.TimeWheel.{
  Entry, Location, second_slot, minute_slot, Wheel, remove_at, remove_found, remove_entry,
}
use tickraft.TimeWheel.Places.{slot_at, same_place, same_place_eq}
use tickraft.TimeWheel.Turn.{slot_at-refill, remove_at_is, remove_entry-IsCoherent}
use tickraft.TimeWheel.Deadline.{Due}
use tickraft.TimeWheel.Deadline.Schedule.{IsPlanned}

pointers-remove_found :
    (w : Wheel) (other : ℕ) (found : Option Location)
    → ((remove_found w other found).sec_ptr ≡ w.sec_ptr)
      × ((remove_found w other found).min_ptr ≡ w.min_ptr)
unfolding remove_found remove_at
pointers-remove_found w other none = (refl, refl)
pointers-remove_found w other (some (second_slot s)) = (refl, refl)
pointers-remove_found w other (some (minute_slot s)) = (refl, refl)

slot-remove_found :
    (w : Wheel) (other id : ℕ) (found : Option Location) (b : Location)
    → other ≢ id
    → lookup id (slot_at (remove_found w other found) b) ≡ lookup id (slot_at w b)
unfolding remove_found
slot-remove_found w other id none b differ = refl
slot-remove_found w other id (some a) b differ =
    let is = remove_at_is w a other in
    let there = slot_at-refill w a b (remove other (slot_at w a)) (remove other w.index) in
    let gone = lookup-remove other id (slot_at w a) in
    let apart : other == id ≡ false = ground arith in
    rw is (
      rw there (elim (Bool-cases (same_place a b)) [
        | inl here ↦ let same = same_place_eq a b here in rw here (gone ∙ (rw apart (rw same refl)))
        | inr away ↦ rw away refl
      ]))

pub pointers-remove_entry :
    (w : Wheel) (other : ℕ)
    → ((remove_entry w other).sec_ptr ≡ w.sec_ptr) × ((remove_entry w other).min_ptr ≡ w.min_ptr)
unfolding remove_entry
pointers-remove_entry w other = pointers-remove_found w other (lookup other w.index)

pub slot-remove_entry :
    (w : Wheel) (other id : ℕ) (b : Location)
    → other ≢ id
    → lookup id (slot_at (remove_entry w other) b) ≡ lookup id (slot_at w b)
unfolding remove_entry
slot-remove_entry w other id b differ = slot-remove_found w other id (lookup other w.index) b differ

Due-kept :
    (w : Wheel) (other id : ℕ) (e : Entry) (q last : ℕ)
    → other ≢ id
    → Due id e w q last
    → Due id e (remove_entry w other) q last
Due-kept w other id e q last differ (inl (near, there)) =
    let (sec, min) = pointers-remove_entry w other in
    let kept = slot-remove_entry w other id (second_slot ((w.sec_ptr + q) % 60)) differ in
    inl (near, rw sec (kept ∙ there))
Due-kept w other id e q last differ (inr (j, some_turns, reached, remains, there)) =
    let (sec, min) = pointers-remove_entry w other in
    let kept = slot-remove_entry w other id (minute_slot ((w.min_ptr + j) % 60)) differ in
    inr (j, some_turns, rw sec reached, remains, rw min (kept ∙ there))

pub remove_entry-IsPlanned :
    (w : Wheel) (other id : ℕ) (e : Entry) (last : ℕ)
    → other ≢ id
    → IsPlanned id e w last
    → IsPlanned id e (remove_entry w other) last
remove_entry-IsPlanned w other id e last differ p = record {
  coherent = (remove_entry-IsCoherent w other p.coherent).0;
  bound = rw (pointers-remove_entry w other).0 p.bound;
  ticks = p.ticks;
  due = Due-kept w other id e p.ticks last differ p.due;
  some_ticks = p.some_ticks;
  not_late = p.not_late;
  not_early = p.not_early;
}
