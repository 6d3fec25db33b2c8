-- ===== src/Scheduler/Engine/Pending.antt =====
-- What the engine of the scheduler (pkg/scheduler/engine_impl.go) has under way for an id: at most one entry
-- that waits in the wheel, or one callback that is fired.
use tickraft.Base.{
  ℕ, ◌≡◌, ◌≢◌, ◌<◌, refl, sym, ap, ◌∙◌, ◌+◌, true, false, List, Option, some, none, arith,
  Bool-cases, ◌==◌, leb, inl, inr, ◌⊎◌, lookup, insert, nat_key, lookup-insert,
}
use tickraft.TimeWheel.{Wheel, add_at}
use tickraft.TimeWheel.Places.{IsCoherent, Absent}
use tickraft.TimeWheel.Turn.{add_at-IsCoherent}
use tickraft.TimeWheel.Absence.{add_at-Absent}
use tickraft.Scheduler.Engine.{Closure, Engine, mark_fired, at_once, arm}

-- No callback of the id waits for the pool or runs.
abbrev pub IsIdle : List (ℕ × Closure) → ℕ → Type 0
IsIdle fired id = (j : ℕ) (c : Closure) → lookup j fired ≡ some c → c.id ≢ id

-- The entry of an id: the one that leaves, or the one of the table.
abbrev pub first : Option ℕ → Option ℕ → Option ℕ
first none o = o
first (some entry) o = some entry

-- An entry of the wheel is the one of its id, and the id has no callback that is fired.
pub record Waits (closures : List (ℕ × Closure)) (leaving entries : List (ℕ × ℕ))
    (fired : List (ℕ × Closure)) (j : ℕ) : Type 0 where
  pub closure : Closure
  pub known : lookup j closures ≡ some closure
  pub current : first (lookup closure.id leaving) (lookup closure.id entries) ≡ some j
  pub idle : IsIdle fired closure.id

abbrev pub WaitsIn : Engine → ℕ → Type 0
WaitsIn g j = Waits g.closures g.leaving g.entries g.fired j

pub record IsChained (g : Engine) : Type 0 where
  pub coherent : IsCoherent g.wheel
  pub fresh :
      (j : ℕ)
      → g.next_entry < j
      → Absent g.wheel j × (lookup j g.closures ≡ none) × (lookup j g.fired ≡ none)
  pub off :
      (id n : ℕ)
      → lookup id g.leaving ≡ some n
      → (lookup id g.entries ≡ none) × (lookup id g.scheds ≡ none)
  pub waiting : (j : ℕ) → Absent g.wheel j ⊎ WaitsIn g j
  pub runs : (j : ℕ) (c : Closure) → lookup j g.fired ≡ some c → lookup j g.closures ≡ some c
  pub single :
      (j k : ℕ) (c d : Closure)
      → lookup j g.fired ≡ some c
      → lookup k g.fired ≡ some d
      → c.id ≡ d.id
      → j ≡ k

-- Each entry of the wheel is one of another id.
abbrev pub IsCleared : Engine → ℕ → Type 0
IsCleared g id = (j : ℕ) → Absent g.wheel j ⊎ ((w : WaitsIn g j) × (w.closure.id ≢ id))

-- `arm` when the entry goes to the wheel, and when it is submitted at once.
abbrev pub later : Wheel → ℕ → Closure → Engine → Engine
later w entry c g = record g {
  wheel = w;
  next_entry = entry;
  closures = insert entry c g.closures;
  entries = insert c.id entry g.entries;
}

abbrev pub due : ℕ → Closure → Engine → Engine
due entry c g = record g {
  next_entry = entry;
  closures = insert entry c g.closures;
  fired = insert entry c g.fired;
  entries = insert c.id entry g.entries;
}

fresh_known :
    (g : Engine) (c : Closure) (j : ℕ)
    → IsChained g
    → g.next_entry + 1 < j
    → lookup j (insert (g.next_entry + 1) c g.closures) ≡ none
fresh_known g c j a h =
    ground (arith, lookup-insert (g.next_entry + 1) j c g.closures, a.fresh j (omega (arith, h)))

-- An entry of another id waits on when the id gets a fresh one.
kept_for_others :
    (g : Engine) (c : Closure) (fired : List (ℕ × Closure)) (j : ℕ)
    → IsChained g
    → (w : WaitsIn g j) → w.closure.id ≢ c.id
    → IsIdle fired w.closure.id
    → Waits
        (insert (g.next_entry + 1) c g.closures)
        g.leaving
        (insert c.id (g.next_entry + 1) g.entries)
        fired
        j
kept_for_others g c fired j a w other idle = record {
  closure = w.closure;
  known =
      let old = w.known in
      ground (arith, lookup-insert (g.next_entry + 1) j c g.closures, a.fresh j);
  current =
      let same : lookup w.closure.id (insert c.id (g.next_entry + 1) g.entries)
          ≡ lookup w.closure.id g.entries =
        ground (arith, lookup-insert c.id w.closure.id (g.next_entry + 1) g.entries) in
      rw same w.current;
  idle = idle;
}

-- What a map holds behind a write is the new value, or was there.
pub inserted :
    (n j : ℕ) (c d : Closure) (m : List (ℕ × Closure))
    → lookup j (insert n c m) ≡ some d
    → ((n ≡ j) × (c ≡ d)) ⊎ (lookup j m ≡ some d)
inserted n j c d m h =
    let there = lookup-insert n j c m in
    elim (Bool-cases (n == j)) [
      | inl same ↦ inl (ground arith, ground arith)
      | inr other ↦ inr (ground arith)
    ]

pub insert-IsIdle :
    (n id : ℕ) (c : Closure) (fired : List (ℕ × Closure))
    → c.id ≢ id
    → IsIdle fired id
    → IsIdle (insert n c fired) id
insert-IsIdle n id c fired differ idle j d h = elim (inserted n j c d fired h) [
  | inl (at, e) ↦ rw (sym e) differ
  | inr before ↦ idle j d before
]

due-IsChained :
    (g : Engine) (c : Closure)
    → IsChained g
    → IsCleared g c.id
    → IsIdle g.fired c.id
    → lookup c.id g.leaving ≡ none
    → IsChained (due (g.next_entry + 1) c g)
due-IsChained g c a cleared idle stays = record {
  coherent = a.coherent;
  fresh = λ j h. (
    (a.fresh j (omega (arith, h))).0,
    fresh_known g c j a h,
    ground (arith, lookup-insert (g.next_entry + 1) j c g.fired, a.fresh j (omega (arith, h))),
  );
  off = λ id n h.
      let (no_entry, no_schedule) = a.off id n h in
      let other : c.id ≢ id =
        λ e. absurd (let gone : lookup id g.leaving ≡ none = rw (sym e) stays in cc) in
      (ground (arith, lookup-insert c.id id (g.next_entry + 1) g.entries), no_schedule);
  waiting = λ j. elim (cleared j) [
    | inl absent ↦ inl absent
    | inr (w, other) ↦ inr (
        kept_for_others g c (insert (g.next_entry + 1) c g.fired) j a w other
          (insert-IsIdle (g.next_entry + 1) w.closure.id c g.fired (λ e. other (sym e)) w.idle))
  ];
  runs = λ j d h.
      let known = a.runs j d in
      ground (
        arith,
        lookup-insert (g.next_entry + 1) j c g.closures,
        lookup-insert (g.next_entry + 1) j c g.fired,
        a.fresh j,
      );
  single = λ j k d e h i same. elim (inserted (g.next_entry + 1) j c d g.fired h) [
    | inl (at_j, is_d) ↦ elim (inserted (g.next_entry + 1) k c e g.fired i) [
      | inl (at_k, is_e) ↦ sym at_j ∙ at_k
      | inr before ↦ absurd (idle k e before (sym same ∙ ap Closure.id (sym is_d)))
    ]
    | inr was_j ↦ elim (inserted (g.next_entry + 1) k c e g.fired i) [
      | inl (at_k, is_e) ↦ absurd (idle j d was_j (same ∙ ap Closure.id (sym is_e)))
      | inr was_k ↦ a.single j k d e was_j was_k same
    ]
  ];
}

later-IsChained :
    (g : Engine) (c : Closure) (now fire_at : ℕ)
    → IsChained g
    → IsCleared g c.id
    → IsIdle g.fired c.id
    → lookup c.id g.leaving ≡ none
    → IsChained (
        later
          (add_at g.wheel (g.next_entry + 1) now fire_at (g.next_entry + 1)).0
          (g.next_entry + 1)
          c
          g)
later-IsChained g c now fire_at a cleared idle stays = record {
  coherent =
      add_at-IsCoherent g.wheel (g.next_entry + 1) now fire_at (g.next_entry + 1) a.coherent
        (a.fresh (g.next_entry + 1) (omega arith)).0;
  fresh = λ j h. (
    add_at-Absent g.wheel (g.next_entry + 1) now fire_at (g.next_entry + 1) j
        (λ e. omega (arith, h, e)) (a.fresh j (omega (arith, h))).0,
    fresh_known g c j a h,
    (a.fresh j (omega (arith, h))).2,
  );
  off = λ id n h.
      let (no_entry, no_schedule) = a.off id n h in
      let other : c.id ≢ id =
        λ e. absurd (let gone : lookup id g.leaving ≡ none = rw (sym e) stays in cc) in
      (ground (arith, lookup-insert c.id id (g.next_entry + 1) g.entries), no_schedule);
  waiting = λ j. elim (Bool-cases (g.next_entry + 1 == j)) [
    | inl same ↦ inr (record {
      closure = c;
      known = ground (arith, lookup-insert (g.next_entry + 1) j c g.closures);
      current = rw stays (ground (arith, lookup-insert c.id c.id (g.next_entry + 1) g.entries));
      idle = idle;
    })
    | inr apart ↦ elim (cleared j) [
      | inl absent ↦ inl (
          add_at-Absent g.wheel (g.next_entry + 1) now fire_at (g.next_entry + 1) j (ground arith)
            absent)
      | inr (w, other) ↦ inr (kept_for_others g c g.fired j a w other w.idle)
    ]
  ];
  runs = λ j d h.
      let known = a.runs j d h in
      ground (arith, lookup-insert (g.next_entry + 1) j c g.closures, a.fresh j);
  single = a.single;
}

pub arm-due :
    (now fire_at n : ℕ) (c : Closure) (g : Engine)
    → leb fire_at now ≡ true
    → arm now fire_at n c g ≡ due n c g
unfolding arm mark_fired at_once add_at
arm-due now fire_at n c g h = rw h refl

pub arm-later :
    (now fire_at n : ℕ) (c : Closure) (g : Engine)
    → leb fire_at now ≡ false
    → arm now fire_at n c g ≡ later (add_at g.wheel n now fire_at n).0 n c g
unfolding arm mark_fired at_once add_at
arm-later now fire_at n c g h = rw h refl

pub arm-IsChained :
    (now fire_at : ℕ) (c : Closure) (g : Engine)
    → IsChained g
    → IsCleared g c.id
    → IsIdle g.fired c.id
    → lookup c.id g.leaving ≡ none
    → IsChained (arm now fire_at (g.next_entry + 1) c g)
arm-IsChained now fire_at c g a cleared idle stays = elim (Bool-cases (leb fire_at now)) [
  | inl now_due ↦
      rw (arm-due now fire_at (g.next_entry + 1) c g now_due)
        (due-IsChained g c a cleared idle stays)
  | inr is_later ↦
      rw (arm-later now fire_at (g.next_entry + 1) c g is_later)
        (later-IsChained g c now fire_at a cleared idle stays)
]
