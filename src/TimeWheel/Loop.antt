-- ===== src/TimeWheel/Loop.antt =====
-- What a turn of the time wheel does to its slots (pkg/timewheel/wheel.go, `cascade` and `tick`), and
-- that every operation keeps the index and the slots in agreement.
use tickraft.Base.{
  ℕ, ◌≡◌, refl, ◌∙◌, false, ◌&&◌, List, [], ◌∷◌, some, none, arith, Bool-cases, ◌==◌, ◌/◌, ◌-◌,
  if◌then◌else◌, inl, inr, lookup, remove, nat_key, Distinct,
}
use tickraft.TimeWheel.{
  nanos, Entry, Location, second_slot, minute_slot, Wheel, put, cascade_slot, cascade_entry,
  cascade_all,
}
use tickraft.TimeWheel.Places.{
  slot_at, same_place, same_place_refl, IsCoherent, Absent, lookup-put, put-IsCoherent,
  slot_at_index, forget-IsCoherent,
}

-- Where the cascade puts an entry.
abbrev pub target : Wheel → ℕ → Entry → Location
target w now e = cascade_slot w ((e.expire_at - now) / nanos)

pub lookup-cascade_entry :
    (w : Wheel) (now : ℕ) (e : Entry) (b : Location) (id : ℕ)
    → lookup id (slot_at (cascade_entry w now e) b)
      ≡ (if same_place (target w now e) b && e.id == id then some e else lookup id (slot_at w b))
unfolding cascade_entry
lookup-cascade_entry w now e b id =
    let held = slot_at_index w (remove e.id w.index) b in
    let there = lookup-put (record w { index = remove e.id w.index }) (target w now e) b e id in cc

cascade_entry-IsCoherent :
    (w : Wheel) (now : ℕ) (e : Entry)
    → IsCoherent w
    → Absent w e.id
    → IsCoherent (cascade_entry w now e)
unfolding cascade_entry
cascade_entry-IsCoherent w now e c absent =
    put-IsCoherent (record w { index = remove e.id w.index }) (target w now e) e
      (forget-IsCoherent w e.id c absent)
      (λ a. rw (slot_at_index w (remove e.id w.index) a) (absent a))

pub pointers-put :
    (w : Wheel) (a : Location) (e : Entry)
    → ((put w a e).sec_ptr ≡ w.sec_ptr) × ((put w a e).min_ptr ≡ w.min_ptr)
unfolding put
pointers-put w (second_slot s) e = (refl, refl)
pointers-put w (minute_slot s) e = (refl, refl)

-- The pointers stay through the loop.
pub pointers-cascade_entry :
    (w : Wheel) (now : ℕ) (e : Entry)
    → ((cascade_entry w now e).sec_ptr ≡ w.sec_ptr) × ((cascade_entry w now e).min_ptr ≡ w.min_ptr)
unfolding cascade_entry
pointers-cascade_entry w now e =
    pointers-put (record w { index = remove e.id w.index }) (target w now e) e

target-cascade_entry :
    (w : Wheel) (now : ℕ) (e f : Entry) → target (cascade_entry w now f) now e ≡ target w now e
unfolding cascade_slot
target-cascade_entry w now e f =
    let (sec, min) = pointers-cascade_entry w now f in rw sec (rw min refl)

pub pointers-cascade_all :
    (w : Wheel) (now : ℕ) (es : List (ℕ × Entry))
    → ((cascade_all w now es).sec_ptr ≡ w.sec_ptr) × ((cascade_all w now es).min_ptr ≡ w.min_ptr)
unfolding cascade_all
pointers-cascade_all w now [] = (refl, refl)
pointers-cascade_all w now ((id, e) ∷ es) =
    let first = pointers-cascade_entry w now e in
    let rest = pointers-cascade_all (cascade_entry w now e) now es in
    (rest.0 ∙ first.0, rest.1 ∙ first.1)

-- The entries left to place: under their own numbers, none twice, and in no slot.
pub record IsLoose (w : Wheel) (es : List (ℕ × Entry)) : Type 0 where
  pub named : (id : ℕ) (e : Entry) → lookup id es ≡ some e → (e.id ≡ id) × Absent w id
  pub distinct : Distinct es

pub head_found : (id : ℕ) (e : Entry) (es : List (ℕ × Entry)) → lookup id ((id, e) ∷ es) ≡ some e
unfolding lookup
head_found id e es = ground arith

tail_found :
    (id j : ℕ) (e f : Entry) (es : List (ℕ × Entry))
    → lookup id es ≡ none
    → lookup j es ≡ some f
    → (id == j ≡ false) × (lookup j ((id, e) ∷ es) ≡ some f)
unfolding lookup
tail_found id j e f es h g = elim (Bool-cases (id == j)) [
  | inl same ↦ let eq : id ≡ j = ground arith in absurd (cc)
  | inr other ↦ (other, rw other g)
]

pub tail-IsLoose :
    (w : Wheel) (now id : ℕ) (e : Entry) (es : List (ℕ × Entry))
    → IsLoose w ((id, e) ∷ es)
    → IsLoose (cascade_entry w now e) es
tail-IsLoose w now id e es l = record {
  named = λ j f h.
      let (other, found) = tail_found id j e f es l.distinct.0 h in
      let (own, absent) = l.named j f found in
      let (mine, gone) = l.named id e (head_found id e es) in
      (
        own,
        λ a.
            let now_there = lookup-cascade_entry w now e a j in let away = absent a in ground arith,
      );
  distinct = l.distinct.1;
}

pub cascade_all-IsCoherent :
    (w : Wheel) (now : ℕ) (es : List (ℕ × Entry))
    → IsCoherent w
    → IsLoose w es
    → IsCoherent (cascade_all w now es)
unfolding cascade_all
cascade_all-IsCoherent w now [] c l = c
cascade_all-IsCoherent w now ((id, e) ∷ es) c l =
    let (mine, absent) = l.named id e (head_found id e es) in
    cascade_all-IsCoherent (cascade_entry w now e) now es
      (cascade_entry-IsCoherent w now e c (rw mine absent)) (tail-IsLoose w now id e es l)

-- The loop leaves the other entries where they are.
pub cascade_all_keeps :
    (w : Wheel) (now : ℕ) (es : List (ℕ × Entry)) (a : Location) (id : ℕ)
    → IsLoose w es
    → lookup id es ≡ none
    → lookup id (slot_at (cascade_all w now es) a) ≡ lookup id (slot_at w a)
unfolding cascade_all lookup
cascade_all_keeps w now [] a id l h = refl
cascade_all_keeps w now ((j, e) ∷ es) a id l h =
    let (mine, absent) = l.named j e (head_found j e es) in
    let here = lookup-cascade_entry w now e a id in
    let rest =
      cascade_all_keeps (cascade_entry w now e) now es a id (tail-IsLoose w now j e es l) in
    ground arith

-- The loop puts each of its entries in the slot of its remaining time.
pub cascade_all_places :
    (w : Wheel) (now : ℕ) (es : List (ℕ × Entry)) (id : ℕ) (e : Entry)
    → IsLoose w es
    → lookup id es ≡ some e
    → lookup id (slot_at (cascade_all w now es) (target w now e)) ≡ some e
unfolding cascade_all lookup
cascade_all_places w now [] id e l h = absurd (cc)
cascade_all_places w now ((j, f) ∷ es) id e l h = elim (Bool-cases (j == id)) [
  | inl same ↦
      let here = lookup-cascade_entry w now e (target w now e) id in
      let (own, absent) = l.named id e h in
      let place = same_place_refl (target w now e) in
      let rest =
        cascade_all_keeps (cascade_entry w now f) now es (target w now e) id
          (tail-IsLoose w now j f es l) in
      ground arith
  | inr other ↦
      let rest =
        cascade_all_places (cascade_entry w now f) now es id e (tail-IsLoose w now j f es l) in
      let place = target-cascade_entry w now e f in ground arith
]
