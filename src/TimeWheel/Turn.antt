-- ===== src/TimeWheel/Turn.antt =====
-- Every operation of the time wheel keeps the index and the slots in agreement (pkg/timewheel/wheel.go,
-- `AddAt`, `Remove`, `tick`).
use tickraft.Base.{
  ℕ, ◌≡◌, refl, ◌∙◌, sym, false, List, [], ◌∷◌, Option, some, none, arith, Bool-cases, Option-cases,
  ◌==◌, ◌+◌, ◌%◌, leb, if◌then◌else◌, inl, inr, lookup, remove, nat_key, lookup-remove, Distinct,
  remove-Distinct,
}
use tickraft.TimeWheel.{
  wheel_size, Entry, Location, second_slot, minute_slot, Wheel, with_slot, remove_at, remove_found,
  remove_entry, cascade, advance, forget_all, collect, tick, add_at,
}
use tickraft.TimeWheel.Places.{
  slot_at, same_place, same_place_eq, same_place_refl, same_place_sym, IsCoherent, elsewhere_none,
  Absent, put-IsCoherent,
}
use tickraft.TimeWheel.Loop.{IsLoose, cascade_all-IsCoherent}

-- The wheel with a new content of one slot and a new index.
abbrev pub refill : Wheel → Location → List (ℕ × Entry) → List (ℕ × Location) → Wheel
refill w (second_slot s) m l = record w { seconds = with_slot w.seconds s m; index = l }
refill w (minute_slot s) m l = record w { minutes = with_slot w.minutes s m; index = l }

pub slot_at-refill :
    (w : Wheel) (a b : Location) (m : List (ℕ × Entry)) (l : List (ℕ × Location))
    → slot_at (refill w a m l) b ≡ (if same_place a b then m else slot_at w b)
unfolding with_slot
slot_at-refill w (second_slot s) (second_slot t) m l = refl
slot_at-refill w (second_slot s) (minute_slot t) m l = refl
slot_at-refill w (minute_slot s) (second_slot t) m l = refl
slot_at-refill w (minute_slot s) (minute_slot t) m l = refl

index-refill :
    (w : Wheel) (a : Location) (m : List (ℕ × Entry)) (l : List (ℕ × Location))
    → (refill w a m l).index ≡ l
index-refill w (second_slot s) m l = refl
index-refill w (minute_slot s) m l = refl

-- A slot that loses entries, and an index that forgets only numbers that no slot holds any more.
refill-IsCoherent :
    (w : Wheel) (a : Location) (m : List (ℕ × Entry)) (l : List (ℕ × Location))
    → IsCoherent w
    → Distinct m
    → ((id : ℕ) (e : Entry)
        → lookup id m ≡ some e
        → (lookup id (slot_at w a) ≡ some e) × (lookup id l ≡ lookup id w.index))
    → ((b : Location) (id : ℕ) (e : Entry)
        → lookup id (slot_at w b) ≡ some e
        → same_place a b ≡ false
        → lookup id l ≡ lookup id w.index)
    → IsCoherent (refill w a m l)
refill-IsCoherent w a m l c d kept others = record {
  indexed = λ b id e h.
      let there = slot_at-refill w a b m l in
      let named = index-refill w a m l in
      let inside = kept id e in
      let outside = others b id e in
      let before = c.indexed b id e in
      elim (Bool-cases (same_place a b)) [
        | inl here ↦ let same = same_place_eq a b here in ground arith
        | inr away ↦ ground arith
      ];
  slots_distinct = λ b. rw (slot_at-refill w a b m l) (elim (Bool-cases (same_place a b)) [
    | inl here ↦ rw here d
    | inr away ↦ rw away (c.slots_distinct b)
  ]);
}

emptied-IsCoherent :
    (w : Wheel) → IsCoherent w → IsCoherent (refill w (minute_slot w.min_ptr) [] w.index)
unfolding lookup
emptied-IsCoherent w c =
    refill-IsCoherent w (minute_slot w.min_ptr) [] w.index c tt (λ id e h. absurd (cc))
      (λ b id e h away. refl)

pub emptied-IsLoose :
    (w : Wheel)
    → IsCoherent w
    → IsLoose (refill w (minute_slot w.min_ptr) [] w.index) (w.minutes w.min_ptr)
unfolding lookup
emptied-IsLoose w c = record {
  named = λ id e h. (
    (c.indexed (minute_slot w.min_ptr) id e h).1,
    λ a.
        let there = slot_at-refill w (minute_slot w.min_ptr) a [] w.index in
        let gone = elsewhere_none w (minute_slot w.min_ptr) a id e c h in
        elim (Bool-cases (same_place (minute_slot w.min_ptr) a)) [
          | inl here ↦ rw there (rw here refl)
          | inr away ↦ rw there (rw away (gone away))
        ],
  );
  distinct = c.slots_distinct (minute_slot w.min_ptr);
}

abbrev pub moved : Wheel → ℕ → ℕ → Wheel
moved w s m = record w { sec_ptr = s; min_ptr = m }

pub slot_at-moved : (w : Wheel) (s m : ℕ) (a : Location) → slot_at (moved w s m) a ≡ slot_at w a
slot_at-moved w s m (second_slot t) = refl
slot_at-moved w s m (minute_slot t) = refl

pub moved-IsCoherent : (w : Wheel) (s m : ℕ) → IsCoherent w → IsCoherent (moved w s m)
moved-IsCoherent w s m c = record {
  indexed = λ a id e h.
      let before : lookup id (slot_at w a) ≡ some e = rw (sym (slot_at-moved w s m a)) h in
      c.indexed a id e before;
  slots_distinct = λ a. rw (slot_at-moved w s m a) (c.slots_distinct a);
}

cascade-IsCoherent : (w : Wheel) (now : ℕ) → IsCoherent w → IsCoherent (cascade w now)
unfolding cascade
cascade-IsCoherent w now c =
    cascade_all-IsCoherent (refill w (minute_slot w.min_ptr) [] w.index) now (w.minutes w.min_ptr)
      (emptied-IsCoherent w c) (emptied-IsLoose w c)

pub advance-IsCoherent : (w : Wheel) (now : ℕ) → IsCoherent w → IsCoherent (advance w now)
unfolding advance
advance-IsCoherent w now c = elim (Bool-cases ((w.sec_ptr + 1) % wheel_size == 0)) [
  | inl full ↦ rw full (
      cascade-IsCoherent (moved w ((w.sec_ptr + 1) % wheel_size) ((w.min_ptr + 1) % wheel_size)) now
        (moved-IsCoherent w _ _ c))
  | inr part ↦ rw part (moved-IsCoherent w ((w.sec_ptr + 1) % wheel_size) w.min_ptr c)
]

lookup-forget_all :
    (id : ℕ) (es : List (ℕ × Entry)) (l : List (ℕ × Location))
    → lookup id es ≡ none
    → lookup id (forget_all es l) ≡ lookup id l
unfolding forget_all lookup
lookup-forget_all id [] l h = refl
lookup-forget_all id ((j, e) ∷ es) l h =
    let rest = lookup-forget_all id es (remove j l) in
    let here = lookup-remove j id l in ground arith

pub collect-IsCoherent : (w : Wheel) → IsCoherent w → IsCoherent (collect w).0
unfolding collect lookup
collect-IsCoherent w c =
    refill-IsCoherent w (second_slot w.sec_ptr) [] (forget_all (w.seconds w.sec_ptr) w.index) c tt
      (λ id e h. absurd (cc))
      (λ b id e h away. lookup-forget_all id (w.seconds w.sec_ptr) w.index (
        elsewhere_none w b (second_slot w.sec_ptr) id e c h
          (same_place_sym b (second_slot w.sec_ptr) ∙ away)))

-- A tick at any time keeps the agreement of the index and the slots: each entry that is left stands under
-- its own number, in the one slot that the index names, whatever the cascade moved.
pub tick-IsCoherent : (w : Wheel) (now : ℕ) → IsCoherent w → IsCoherent (tick w now).0
unfolding tick
tick-IsCoherent w now c = collect-IsCoherent (advance w now) (advance-IsCoherent w now c)

pub add_at-IsCoherent :
    (w : Wheel) (id now fire_at callback : ℕ)
    → IsCoherent w
    → Absent w id
    → IsCoherent (add_at w id now fire_at callback).0
unfolding add_at
add_at-IsCoherent w id now fire_at callback c absent = elim (Bool-cases (leb fire_at now)) [
  | inl due ↦ rw due c
  | inr later ↦ rw later (put-IsCoherent w _ _ c absent)
]

pub remove_at_is :
    (w : Wheel) (a : Location) (id : ℕ)
    → remove_at w a id ≡ refill w a (remove id (slot_at w a)) (remove id w.index)
unfolding remove_at
remove_at_is w (second_slot s) id = refl
remove_at_is w (minute_slot s) id = refl

remove_at-IsCoherent :
    (w : Wheel) (a : Location) (id : ℕ)
    → IsCoherent w
    → lookup id w.index ≡ some a
    → IsCoherent (remove_at w a id)
remove_at-IsCoherent w a id c found = rw (remove_at_is w a id) (
    refill-IsCoherent w a (remove id (slot_at w a)) (remove id w.index) c
      (remove-Distinct id (slot_at w a) (c.slots_distinct a))
      (λ j e h.
        let slot = lookup-remove id j (slot_at w a) in
        let named = lookup-remove id j w.index in ground arith)
      (λ b j e h away.
        let named = lookup-remove id j w.index in
        let there = (c.indexed b j e h).0 in
        let own = same_place_refl a in
        elim (Bool-cases (id == j)) [
          | inl same ↦ let eq : id ≡ j = ground arith in let place : a ≡ b = cc in absurd (cc)
          | inr other ↦ ground arith
        ]))

unindexed_absent : (w : Wheel) (id : ℕ) → IsCoherent w → lookup id w.index ≡ none → Absent w id
unindexed_absent w id c h = λ a. elim (Option-cases (lookup id (slot_at w a))) [
  | inl gone ↦ gone
  | inr (e, there) ↦ let known = (c.indexed a id e there).0 in absurd (cc)
]

removed_absent :
    (w : Wheel) (a : Location) (id : ℕ)
    → IsCoherent w
    → lookup id w.index ≡ some a
    → Absent (remove_at w a id) id
removed_absent w a id c known = λ b. rw (remove_at_is w a id) (
    rw (slot_at-refill w a b (remove id (slot_at w a)) (remove id w.index))
      (elim (Bool-cases (same_place a b)) [
        | inl here ↦ rw here (let gone = lookup-remove id id (slot_at w a) in ground arith)
        | inr away ↦ rw away (elim (Option-cases (lookup id (slot_at w b))) [
          | inl gone ↦ gone
          | inr (e, there) ↦
              let named = (c.indexed b id e there).0 in
              let place : a ≡ b = cc in let own = same_place_refl b in absurd (cc)
        ])
      ]))

remove_found-IsCoherent :
    (w : Wheel) (id : ℕ) (found : Option Location)
    → IsCoherent w
    → lookup id w.index ≡ found
    → IsCoherent (remove_found w id found) × Absent (remove_found w id found) id
unfolding remove_found
remove_found-IsCoherent w id none c h = (c, unindexed_absent w id c h)
remove_found-IsCoherent w id (some a) c h =
    (remove_at-IsCoherent w a id c h, removed_absent w a id c h)

-- On a wheel whose index and slots agree, `Remove` keeps the agreement, and no slot holds the number any
-- more, in whatever slot it was and if it was in none.
pub remove_entry-IsCoherent :
    (w : Wheel) (id : ℕ)
    → IsCoherent w
    → IsCoherent (remove_entry w id) × Absent (remove_entry w id) id
unfolding remove_entry
remove_entry-IsCoherent w id c = remove_found-IsCoherent w id (lookup id w.index) c refl
