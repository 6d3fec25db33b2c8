-- ===== src/Scheduler/Engine/Leaving.antt =====
-- The two parts of `Remove` of the scheduler's engine (pkg/scheduler/engine_impl.go): the entry of an id leaves
-- the tables, and then the wheel.
use tickraft.Base.{
  ℕ, ◌≡◌, refl, sym, Option, some, none, arith, Bool-cases, ◌==◌, inl, inr, lookup, insert, remove,
  nat_key, lookup-remove, lookup-insert, Option-cases, false,
}
use tickraft.TimeWheel.Turn.{remove_entry-IsCoherent}
use tickraft.TimeWheel.Absence.{remove_entry-Absent}
use tickraft.Scheduler.Engine.{Engine, remove_old, leave, unlist, take_out}
use tickraft.Scheduler.Engine.Pending.{first, IsChained}

-- The first part of `Remove`, for the entry under the id.
abbrev pub unlisted_with : ℕ → Option ℕ → Engine → Engine
unlisted_with id o g = record g {
  leaving = leave id o g.leaving;
  entries = remove id g.entries;
  scheds = remove id g.scheds;
  callbacks = remove id g.callbacks;
}

abbrev entry_of : Engine → ℕ → Option ℕ
entry_of g id = first (lookup id g.leaving) (lookup id g.entries)

-- It moves the entry of the id from the table to those that leave.
entry_of-unlisted :
    (id k j : ℕ) (o : Option ℕ) (g : Engine)
    → lookup id g.entries ≡ o
    → IsChained g
    → entry_of g k ≡ some j
    → entry_of (unlisted_with id o g) k ≡ some j
entry_of-unlisted id k j none g h a before =
    let left : lookup k (remove id g.entries) ≡ lookup k g.entries =
      ground (arith, lookup-remove id k g.entries) in
    rw left before
entry_of-unlisted id k j (some n) g h a before =
    let left = lookup-remove id k g.entries in
    let moved = lookup-insert id k n g.leaving in
    elim (Bool-cases (id == k)) [
      | inl same ↦
          let e : id ≡ k = ground arith in
          let there : entry_of g id ≡ some j = rw e before in
          elim (Option-cases (lookup id g.leaving)) [
            | inl stays ↦
                let named : entry_of g id ≡ some n = rw stays (rw h refl) in
                let found : lookup k (insert id n g.leaving) ≡ some n = ground arith in rw found cc
            | inr (m, leaves) ↦ absurd (let gone = (a.off id m leaves).0 in cc)
          ]
      | inr other ↦
          let kept : lookup k (insert id n g.leaving) ≡ lookup k g.leaving = ground arith in
          let still : lookup k (remove id g.entries) ≡ lookup k g.entries = ground arith in
          rw kept (rw still before)
    ]

off-unlisted :
    (id k n : ℕ) (o : Option ℕ) (g : Engine)
    → IsChained g
    → lookup k (unlisted_with id o g).leaving ≡ some n
    → (lookup k (remove id g.entries) ≡ none) × (lookup k (remove id g.scheds) ≡ none)
off-unlisted id k n none g a h =
    let (no_entry, no_schedule) = a.off k n h in
    (ground (arith, lookup-remove id k g.entries), ground (arith, lookup-remove id k g.scheds))
off-unlisted id k n (some m) g a h =
    let moved = lookup-insert id k m g.leaving in
    elim (Bool-cases (id == k)) [
      | inl same ↦ (
        ground (arith, lookup-remove id k g.entries),
        ground (arith, lookup-remove id k g.scheds),
      )
      | inr other ↦
          let (no_entry, no_schedule) = a.off k n (ground arith) in
          (
            ground (arith, lookup-remove id k g.entries),
            ground (arith, lookup-remove id k g.scheds),
          )
    ]

pub unlist-IsChained : (id : ℕ) (g : Engine) → IsChained g → IsChained (unlist id g)
unfolding unlist
unlist-IsChained id g a = record {
  coherent = a.coherent;
  fresh = a.fresh;
  off = λ k n h. off-unlisted id k n (lookup id g.entries) g a h;
  waiting = λ j. elim (a.waiting j) [
    | inl absent ↦ inl absent
    | inr w ↦ inr (record {
      closure = w.closure;
      known = w.known;
      current = entry_of-unlisted id w.closure.id j (lookup id g.entries) g refl a w.current;
      idle = w.idle;
    })
  ];
  runs = a.runs;
  single = a.single;
}

-- The second part of `Remove`, for the entry that leaves under the id.
abbrev pub gone_from : ℕ → Engine → Engine
gone_from id g = record g { leaving = remove id g.leaving }

entry_of-gone :
    (id k j : ℕ) (g : Engine)
    → id == k ≡ false
    → entry_of g k ≡ some j
    → entry_of (gone_from id g) k ≡ some j
entry_of-gone id k j g other before =
    let kept : lookup k (remove id g.leaving) ≡ lookup k g.leaving =
      ground (arith, lookup-remove id k g.leaving) in
    rw kept before

off-gone :
    (id k n : ℕ) (g : Engine)
    → IsChained g
    → lookup k (remove id g.leaving) ≡ some n
    → (lookup k g.entries ≡ none) × (lookup k g.scheds ≡ none)
off-gone id k n g a h =
    let left = lookup-remove id k g.leaving in
    elim (Bool-cases (id == k)) [
      | inl same ↦ absurd (ground arith)
      | inr other ↦ a.off k n (ground arith)
    ]

take_out_found-IsChained :
    (id : ℕ) (o : Option ℕ) (g : Engine)
    → lookup id g.leaving ≡ o
    → IsChained g
    → IsChained (remove_old o (gone_from id g))
unfolding remove_old
take_out_found-IsChained id none g h a = record {
  coherent = a.coherent;
  fresh = a.fresh;
  off = λ k n i. off-gone id k n g a i;
  waiting = λ j. elim (a.waiting j) [
    | inl absent ↦ inl absent
    | inr w ↦ inr (record {
      closure = w.closure;
      known = w.known;
      current =
          let kept : lookup w.closure.id (remove id g.leaving) ≡ lookup w.closure.id g.leaving =
            ground (arith, lookup-remove id w.closure.id g.leaving) in
          rw kept w.current;
      idle = w.idle;
    })
  ];
  runs = a.runs;
  single = a.single;
}
take_out_found-IsChained id (some n) g h a = record {
  coherent = (remove_entry-IsCoherent g.wheel n a.coherent).0;
  fresh = λ j i.
      let (absent, unknown, idle) = a.fresh j i in
      (remove_entry-Absent g.wheel n j a.coherent absent, unknown, idle);
  off = λ k m i. off-gone id k m g a i;
  waiting = λ j. elim (a.waiting j) [
    | inl absent ↦ inl (remove_entry-Absent g.wheel n j a.coherent absent)
    | inr w ↦ elim (Bool-cases (id == w.closure.id)) [
      | inl same ↦
          let e : id ≡ w.closure.id = ground arith in
          let named : entry_of g id ≡ some j = rw e w.current in
          let leaves : entry_of g id ≡ some n = rw h refl in
          let at : n ≡ j = ground arith in
          inl (rw (sym at) (remove_entry-IsCoherent g.wheel n a.coherent).1)
      | inr other ↦ inr (record {
        closure = w.closure;
        known = w.known;
        current = entry_of-gone id w.closure.id j g other w.current;
        idle = w.idle;
      })
    ]
  ];
  runs = a.runs;
  single = a.single;
}

pub take_out-IsChained : (id : ℕ) (g : Engine) → IsChained g → IsChained (take_out id g)
unfolding take_out
take_out-IsChained id g a = take_out_found-IsChained id (lookup id g.leaving) g refl a
