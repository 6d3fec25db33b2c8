-- ===== src/TimeWheel/Places.antt =====
-- Where an entry of the time wheel is (pkg/timewheel/wheel.go): the index names the one slot that
-- holds it.
use tickraft.Base.{
  ℕ, ◌≡◌, refl, sym, Bool, true, false, ◌&&◌, List, some, none, arith, Bool-cases, Option-cases,
  ◌==◌, if◌then◌else◌, inl, inr, lookup, insert, remove, nat_key, lookup-insert, lookup-remove,
  Distinct, insert-Distinct,
}
use tickraft.TimeWheel.{Entry, Location, second_slot, minute_slot, Wheel, with_slot, put}

abbrev pub slot_at : Wheel → Location → List (ℕ × Entry)
slot_at w (second_slot s) = w.seconds s
slot_at w (minute_slot s) = w.minutes s

abbrev pub same_place : Location → Location → Bool
same_place (second_slot s) (second_slot t) = s == t
same_place (second_slot s) (minute_slot t) = false
same_place (minute_slot s) (second_slot t) = false
same_place (minute_slot s) (minute_slot t) = s == t

pub same_place_eq : (a b : Location) → same_place a b ≡ true → a ≡ b
same_place_eq (second_slot s) (second_slot t) h = ground arith
same_place_eq (second_slot s) (minute_slot t) h = absurd (cc)
same_place_eq (minute_slot s) (second_slot t) h = absurd (cc)
same_place_eq (minute_slot s) (minute_slot t) h = ground arith

pub same_place_refl : (a : Location) → same_place a a ≡ true
same_place_refl (second_slot s) = ground arith
same_place_refl (minute_slot s) = ground arith

pub same_place_sym : (a b : Location) → same_place a b ≡ same_place b a
same_place_sym (second_slot s) (second_slot t) = ground arith
same_place_sym (second_slot s) (minute_slot t) = refl
same_place_sym (minute_slot s) (second_slot t) = refl
same_place_sym (minute_slot s) (minute_slot t) = ground arith

pub slot_at-put :
    (w : Wheel) (a b : Location) (e : Entry)
    → slot_at (put w a e) b ≡ (if same_place a b then insert e.id e (slot_at w b) else slot_at w b)
unfolding put with_slot
slot_at-put w (second_slot s) (second_slot t) e = ground arith
slot_at-put w (second_slot s) (minute_slot t) e = refl
slot_at-put w (minute_slot s) (second_slot t) e = refl
slot_at-put w (minute_slot s) (minute_slot t) e = ground arith

pub index-put : (w : Wheel) (a : Location) (e : Entry) → (put w a e).index ≡ insert e.id a w.index
unfolding put
index-put w (second_slot s) e = refl
index-put w (minute_slot s) e = refl

-- Each entry stands under its own number, in the slot that the index names, and a slot has no number
-- twice.
pub record IsCoherent (w : Wheel) : Type 0 where
  pub indexed :
      (a : Location) (id : ℕ) (e : Entry)
      → lookup id (slot_at w a) ≡ some e
      → (lookup id w.index ≡ some a) × (e.id ≡ id)
  pub slots_distinct : (a : Location) → Distinct (slot_at w a)

-- An entry is in one slot only.
pub elsewhere_none :
    (w : Wheel) (a b : Location) (id : ℕ) (e : Entry)
    → IsCoherent w
    → lookup id (slot_at w a) ≡ some e
    → same_place a b ≡ false
    → lookup id (slot_at w b) ≡ none
elsewhere_none w a b id e c h other = elim (Option-cases (lookup id (slot_at w b))) [
  | inl none_there ↦ none_there
  | inr (f, there) ↦
      let one = (c.indexed a id e h).0 in
      let two = (c.indexed b id f there).0 in
      let same : a ≡ b = cc in let r = same_place_refl b in absurd (cc)
]

-- A number that no slot holds.
abbrev pub Absent : Wheel → ℕ → Type 0
Absent w id = (a : Location) → lookup id (slot_at w a) ≡ none

pub lookup-put :
    (w : Wheel) (a b : Location) (e : Entry) (id : ℕ)
    → lookup id (slot_at (put w a e) b)
      ≡ (if same_place a b && e.id == id then some e else lookup id (slot_at w b))
lookup-put w a b e id =
    rw (slot_at-put w a b e) (ground (arith, lookup-insert e.id id e (slot_at w b)))

pub index-lookup-put :
    (w : Wheel) (a : Location) (e : Entry) (id : ℕ)
    → lookup id (put w a e).index ≡ (if e.id == id then some a else lookup id w.index)
index-lookup-put w a e id = rw (index-put w a e) (lookup-insert e.id id a w.index)

pub put-IsCoherent :
    (w : Wheel) (a : Location) (e : Entry) → IsCoherent w → Absent w e.id → IsCoherent (put w a e)
put-IsCoherent w a e c absent = record {
  indexed = λ b id f h.
      let there = lookup-put w a b e id in
      let named = index-lookup-put w a e id in
      let before = c.indexed b id f in
      let away = absent b in
      elim (Bool-cases (e.id == id)) [
        | inl mine ↦ elim (Bool-cases (same_place a b)) [
          | inl here ↦ let same = same_place_eq a b here in ground arith
          | inr other ↦ ground arith
        ]
        | inr theirs ↦ ground arith
      ];
  slots_distinct = λ b. rw (slot_at-put w a b e) (elim (Bool-cases (same_place a b)) [
    | inl here ↦ rw here (insert-Distinct e.id e (slot_at w b) (c.slots_distinct b))
    | inr other ↦ rw other (c.slots_distinct b)
  ]);
}

pub slot_at_index :
    (w : Wheel) (l : List (ℕ × Location)) (a : Location)
    → slot_at (record w { index = l }) a ≡ slot_at w a
slot_at_index w l (second_slot s) = refl
slot_at_index w l (minute_slot s) = refl

-- The index may forget a number that no slot holds.
pub forget-IsCoherent :
    (w : Wheel) (id : ℕ)
    → IsCoherent w
    → Absent w id
    → IsCoherent (record w { index = remove id w.index })
forget-IsCoherent w id c absent = record {
  indexed = λ a j e h.
      let held = sym (slot_at_index w (remove id w.index) a) in
      let known = c.indexed a j e in
      let gone = lookup-remove id j w.index in let away = absent a in ground arith;
  slots_distinct = λ a. rw (slot_at_index w (remove id w.index) a) (c.slots_distinct a);
}
