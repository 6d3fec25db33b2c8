-- ===== src/TimeWheel/Filled.antt =====
-- The index of the time wheel names no slot in vain (pkg/timewheel/wheel.go, `AddAt`, `Remove`, `tick`): a
-- number that it has is in the slot that it names.
use tickraft.Base.{
  ℕ, false, ◌≡◌, refl, sym, ◌∙◌, ◌+◌, ◌%◌, ◌⊎◌, List, [], ◌∷◌, Option, some, none, arith, ◌==◌,
  if◌then◌else◌, lookup, remove, nat_key, lookup-remove, Bool-cases, inl, inr, leb,
}
use tickraft.TimeWheel.{
  wheel_size, Entry, Location, second_slot, minute_slot, Wheel, new_wheel, put, add_at,
  remove_found, remove_entry, cascade_entry, cascade_all, cascade, advance, forget_all, collect,
  tick,
}
use tickraft.TimeWheel.Places.{
  slot_at, same_place, same_place_eq, same_place_refl, IsCoherent, lookup-put, index-lookup-put,
}
use tickraft.TimeWheel.Loop.{target, lookup-cascade_entry, IsLoose, head_found, tail-IsLoose}
use tickraft.TimeWheel.Turn.{
  refill, slot_at-refill, emptied-IsLoose, moved, slot_at-moved, moved-IsCoherent, remove_at_is,
}
use tickraft.TimeWheel.Removal.{slot-remove_entry}

-- An entry under the number in a slot.
abbrev pub Held : Wheel → Location → ℕ → Type 0
Held w a id = (e : Entry) × (lookup id (slot_at w a) ≡ some e)

pub record IsFilled (w : Wheel) : Type 0 where
  pub filled : (id : ℕ) (a : Location) → lookup id w.index ≡ some a → Held w a id

pub new-IsFilled : IsFilled new_wheel
unfolding lookup
new-IsFilled = record { filled = λ id a h. absurd (cc) }

put-Held :
    (w : Wheel) (a b : Location) (e : Entry) (id : ℕ)
    → e.id == id ≡ false
    → Held w b id
    → Held (put w a e) b id
put-Held w a b e id other (f, there) =
    let now_there = lookup-put w a b e id in
    (f, elim (Bool-cases (same_place a b)) [ inl here ↦ ground arith | inr away ↦ ground arith ])

put-own : (w : Wheel) (a : Location) (e : Entry) → Held (put w a e) a e.id
put-own w a e =
    let there = lookup-put w a a e e.id in let own = same_place_refl a in (e, ground arith)

put-IsFilled : (w : Wheel) (a : Location) (e : Entry) → IsFilled w → IsFilled (put w a e)
put-IsFilled w a e f = record {
  filled = λ id b h.
      let named = index-lookup-put w a e id in
      elim (Bool-cases (e.id == id)) [
        | inl mine ↦
            let same : e.id ≡ id = ground arith in
            let place : a ≡ b = ground arith in rw (sym same) (rw (sym place) (put-own w a e))
        | inr other ↦ put-Held w a b e id other (f.filled id b (let before = named in ground arith))
      ];
}

pub add_at-IsFilled :
    (w : Wheel) (id now fire_at callback : ℕ)
    → IsFilled w
    → IsFilled (add_at w id now fire_at callback).0
unfolding add_at
add_at-IsFilled w id now fire_at callback f = elim (Bool-cases (leb fire_at now)) [
  | inl due ↦ rw due f
  | inr later ↦ rw later (put-IsFilled w _ _ f)
]

index-remove_found :
    (w : Wheel) (id j : ℕ) (found : Option Location)
    → lookup id w.index ≡ found
    → lookup j (remove_found w id found).index ≡ (if id == j then none else lookup j w.index)
unfolding remove_found
index-remove_found w id j none h = ground arith
index-remove_found w id j (some (second_slot s)) h =
    rw (remove_at_is w (second_slot s) id) (lookup-remove id j w.index)
index-remove_found w id j (some (minute_slot s)) h =
    rw (remove_at_is w (minute_slot s) id) (lookup-remove id j w.index)

index-remove_entry :
    (w : Wheel) (id j : ℕ)
    → lookup j (remove_entry w id).index ≡ (if id == j then none else lookup j w.index)
unfolding remove_entry
index-remove_entry w id j = index-remove_found w id j (lookup id w.index) refl

pub remove_entry-IsFilled : (w : Wheel) (id : ℕ) → IsFilled w → IsFilled (remove_entry w id)
remove_entry-IsFilled w id f = record {
  filled = λ j a h.
      let left = index-remove_entry w id j in
      elim (Bool-cases (id == j)) [
        | inl same ↦ absurd (ground arith)
        | inr other ↦
            let (e, there) = f.filled j a (ground arith) in
            (e, slot-remove_entry w id j a (ground arith) ∙ there)
      ];
}

-- What the index names is in its slot, or among the entries that the loop has yet to place.
record IsFilledBut (w : Wheel) (es : List (ℕ × Entry)) : Type 0 where
  filled :
      (id : ℕ) (a : Location)
      → lookup id w.index ≡ some a
      → Held w a id ⊎ ((e : Entry) × (lookup id es ≡ some e))

index-cascade_entry :
    (w : Wheel) (now : ℕ) (e : Entry) (id : ℕ)
    → lookup id (cascade_entry w now e).index
      ≡ (if e.id == id then some (target w now e) else lookup id w.index)
unfolding cascade_entry
index-cascade_entry w now e id =
    let named = index-lookup-put (record w { index = remove e.id w.index }) (target w now e) e id in
    let gone = lookup-remove e.id id w.index in ground arith

cascade_entry-IsFilledBut :
    (w : Wheel) (now id : ℕ) (e : Entry) (es : List (ℕ × Entry))
    → e.id ≡ id
    → IsFilledBut w ((id, e) ∷ es)
    → IsFilledBut (cascade_entry w now e) es
unfolding lookup
cascade_entry-IsFilledBut w now id e es own f = record {
  filled = λ j a h.
      let named = index-cascade_entry w now e j in
      let there = lookup-cascade_entry w now e a j in
      let here = same_place_refl a in
      elim (Bool-cases (e.id == j)) [
        | inl mine ↦ let place : target w now e ≡ a = ground arith in inl (e, ground arith)
        | inr other ↦ elim (f.filled j a (ground arith)) [
          | inl (g, held) ↦ inl (g, ground arith)
          | inr (g, left) ↦ inr (g, ground arith)
        ]
      ];
}

cascade_all-IsFilled :
    (w : Wheel) (now : ℕ) (es : List (ℕ × Entry))
    → IsLoose w es
    → IsFilledBut w es
    → IsFilled (cascade_all w now es)
unfolding cascade_all lookup
cascade_all-IsFilled w now [] l f = record {
  filled = λ id a h. elim (f.filled id a h) [ inl held ↦ held | inr (e, left) ↦ absurd (cc) ];
}
cascade_all-IsFilled w now ((id, e) ∷ es) l f =
    let (own, absent) = l.named id e (head_found id e es) in
    cascade_all-IsFilled (cascade_entry w now e) now es (tail-IsLoose w now id e es l)
      (cascade_entry-IsFilledBut w now id e es own f)

moved-IsFilled : (w : Wheel) (s m : ℕ) → IsFilled w → IsFilled (moved w s m)
moved-IsFilled w s m f = record { filled = λ id a h. rw (slot_at-moved w s m a) (f.filled id a h) }

-- An entry of another slot stays when one slot is emptied.
emptied-Held :
    (w : Wheel) (a b : Location) (l : List (ℕ × Location)) (id : ℕ)
    → Held w b id
    → Held (refill w a [] l) b id ⊎ ((e : Entry) × (lookup id (slot_at w a) ≡ some e))
emptied-Held w a b l id (e, there) = elim (Bool-cases (same_place a b)) [
  | inl here ↦ let place = same_place_eq a b here in inr (e, rw place there)
  | inr away ↦ inl (e, rw (slot_at-refill w a b [] l) (rw away there))
]

cascade-IsFilled : (w : Wheel) (now : ℕ) → IsCoherent w → IsFilled w → IsFilled (cascade w now)
unfolding cascade
cascade-IsFilled w now c f =
    let a = minute_slot w.min_ptr in
    cascade_all-IsFilled (refill w a [] w.index) now (w.minutes w.min_ptr) (emptied-IsLoose w c)
      (record { filled = λ id b h. emptied-Held w a b w.index id (f.filled id b h) })

advance-IsFilled : (w : Wheel) (now : ℕ) → IsCoherent w → IsFilled w → IsFilled (advance w now)
unfolding advance
advance-IsFilled w now c f = elim (Bool-cases ((w.sec_ptr + 1) % wheel_size == 0)) [
  | inl full ↦ rw full (
      let s = (w.sec_ptr + 1) % wheel_size in
      let m = (w.min_ptr + 1) % wheel_size in
      cascade-IsFilled (moved w s m) now (moved-IsCoherent w s m c) (moved-IsFilled w s m f))
  | inr part ↦ rw part (moved-IsFilled w ((w.sec_ptr + 1) % wheel_size) w.min_ptr f)
]

-- What the index names behind the deletions of `tick` is none of the deleted numbers, and was named before.
remembered :
    (id : ℕ) (a : Location) (es : List (ℕ × Entry)) (l : List (ℕ × Location))
    → lookup id (forget_all es l) ≡ some a
    → (lookup id es ≡ none) × (lookup id l ≡ some a)
unfolding forget_all lookup
remembered id a [] l h = (refl, h)
remembered id a ((j, e) ∷ es) l h =
    let (other, before) = remembered id a es (remove j l) h in
    let gone = lookup-remove j id l in
    elim (Bool-cases (j == id)) [
      | inl same ↦ absurd (ground arith)
      | inr differ ↦ (ground arith, ground arith)
    ]

collect-IsFilled : (w : Wheel) → IsFilled w → IsFilled (collect w).0
unfolding collect
collect-IsFilled w f = record {
  filled = λ id b h.
      let a = second_slot w.sec_ptr in
      let index = forget_all (w.seconds w.sec_ptr) w.index in
      let (other, before) = remembered id b (w.seconds w.sec_ptr) w.index h in
      elim (emptied-Held w a b index id (f.filled id b before)) [
        | inl held ↦ held
        | inr (e, left) ↦ absurd (cc)
      ];
}

pub tick-IsFilled : (w : Wheel) (now : ℕ) → IsCoherent w → IsFilled w → IsFilled (tick w now).0
unfolding tick
tick-IsFilled w now c f = collect-IsFilled (advance w now) (advance-IsFilled w now c f)
