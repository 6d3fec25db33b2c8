-- ===== src/Scheduler/Engine/Chains.antt =====
-- One chain of callbacks for an id (pkg/scheduler/engine_impl.go): whatever is called, an id has one entry
-- in the wheel or one callback that is fired, when `Add` of an id waits for its callback.
use tickraft.Base.{
  ℕ, ◌≡◌, refl, sym, ◌+◌, ◌-◌, Bool, List, [], ◌∷◌, Option, some, none, arith, Bool-cases, ◌==◌,
  inl, inr, ◌⊎◌, lookup, insert, nat_key, lookup-insert, ◌≢◌,
}
use tickraft.TimeWheel.{Entry}
use tickraft.TimeWheel.Turn.{remove_entry-IsCoherent}
use tickraft.TimeWheel.Absence.{remove_entry-Absent}
use tickraft.Scheduler.Engine.{
  Schedule, next, Closure, Engine, mark_fired, or_nil, arm_next, schedule_next, remove_old, add,
  mark_all_fired,
}
use tickraft.Scheduler.Engine.Pending.{first, IsIdle, IsChained, IsCleared, inserted, arm-IsChained}

-- The table of callbacks does not matter here, and that of schedules only for the ids whose entries leave.
abbrev pub retold : Engine → List (ℕ × Schedule) → List (ℕ × ℕ) → Bool → Engine
retold g s k b = record g { scheds = s; callbacks = k; started = b }

pub retold-IsChained :
    (g : Engine) (s : List (ℕ × Schedule)) (k : List (ℕ × ℕ)) (b : Bool)
    → ((id n : ℕ) → lookup id g.leaving ≡ some n → lookup id s ≡ none)
    → IsChained g
    → IsChained (retold g s k b)
retold-IsChained g s k b left a = record {
  coherent = a.coherent;
  fresh = a.fresh;
  off = λ id n h. ((a.off id n h).0, left id n h);
  waiting = a.waiting;
  runs = a.runs;
  single = a.single;
}

-- A schedule for an id whose entry does not leave.
pub scheduled-IsChained :
    (g : Engine) (id : ℕ) (sched : Schedule) (k : List (ℕ × ℕ))
    → lookup id g.leaving ≡ none
    → IsChained g
    → IsChained (retold g (insert id sched g.scheds) k g.started)
scheduled-IsChained g id sched k stays a =
    retold-IsChained g (insert id sched g.scheds) k g.started
      (λ j n h.
        let (no_entry, no_schedule) = a.off j n h in
        let other : id ≢ j =
          λ e. absurd (let gone : lookup j g.leaving ≡ none = rw (sym e) stays in cc) in
        ground (arith, lookup-insert id j sched g.scheds))
      a

pub remove_old-IsChained :
    (id : ℕ) (old : Option ℕ) (g : Engine)
    → lookup id g.entries ≡ old
    → lookup id g.leaving ≡ none
    → IsChained g
    → IsChained (remove_old old g) × IsCleared (remove_old old g) id
unfolding remove_old
remove_old-IsChained id none g h stays a = (
  a,
  λ j. elim (a.waiting j) [
    | inl absent ↦ inl absent
    | inr w ↦ inr (
      w,
      λ e.
          let here : first (lookup id g.leaving) (lookup id g.entries) ≡ some j =
            rw (sym e) w.current in
          let gone : first (lookup id g.leaving) (lookup id g.entries) ≡ none =
            rw stays (rw h refl) in
          absurd (cc),
    )
  ],
)
remove_old-IsChained id (some n) g h stays a = (
  record {
    coherent = (remove_entry-IsCoherent g.wheel n a.coherent).0;
    fresh = λ j i.
        let (absent, unknown, idle) = a.fresh j i in
        (remove_entry-Absent g.wheel n j a.coherent absent, unknown, idle);
    off = a.off;
    waiting = λ j. elim (a.waiting j) [
      | inl absent ↦ inl (remove_entry-Absent g.wheel n j a.coherent absent)
      | inr w ↦ inr w
    ];
    runs = a.runs;
    single = a.single;
  },
  λ j. elim (a.waiting j) [
    | inl absent ↦ inl (remove_entry-Absent g.wheel n j a.coherent absent)
    | inr w ↦ elim (Bool-cases (w.closure.id == id)) [
      | inl same ↦
          let e : w.closure.id ≡ id = ground arith in
          let named : first (lookup id g.leaving) (lookup id g.entries) ≡ some j =
            rw (sym e) w.current in
          let old : first (lookup id g.leaving) (lookup id g.entries) ≡ some n =
            rw stays (rw h refl) in
          let at : n ≡ j = ground arith in
          inl (rw (sym at) (remove_entry-IsCoherent g.wheel n a.coherent).1)
      | inr other ↦ inr (w, ground arith)
    ]
  ],
)

arm_next-IsChained :
    (now id : ℕ) (at : Option ℕ) (g : Engine)
    → IsChained g
    → IsCleared g id
    → IsIdle g.fired id
    → lookup id g.leaving ≡ none
    → IsChained (arm_next now id at g)
unfolding arm_next
arm_next-IsChained now id none g a cleared idle stays = a
arm_next-IsChained now id (some at) g a cleared idle stays =
    arm-IsChained now (now + (at - now))
      (record { id = id; callback = or_nil (lookup id g.callbacks) }) g a cleared idle stays

pub schedule_next-IsChained :
    (now id : ℕ) (sched : Schedule) (g : Engine)
    → IsChained g
    → IsCleared g id
    → IsIdle g.fired id
    → lookup id g.leaving ≡ none
    → IsChained (schedule_next now id sched g)
unfolding schedule_next
schedule_next-IsChained now id sched g a cleared idle stays =
    arm_next-IsChained now id (next now sched).1
      (retold g (insert id (next now sched).0 g.scheds) g.callbacks g.started)
      (scheduled-IsChained g id (next now sched).0 g.callbacks stays a) cleared idle stays

pub fired-remove_old : (old : Option ℕ) (g : Engine) → (remove_old old g).fired ≡ g.fired
unfolding remove_old
fired-remove_old none g = refl
fired-remove_old (some n) g = refl

pub leaving-remove_old : (old : Option ℕ) (g : Engine) → (remove_old old g).leaving ≡ g.leaving
unfolding remove_old
leaving-remove_old none g = refl
leaving-remove_old (some n) g = refl

pub add-IsChained :
    (now id : ℕ) (sched : Schedule) (callback : ℕ) (g : Engine)
    → IsChained g
    → IsIdle g.fired id
    → lookup id g.leaving ≡ none
    → IsChained (add now id sched callback g)
unfolding add
add-IsChained now id sched callback g a idle stays =
    let old = remove_old (lookup id g.entries) g in
    let (chained, cleared) = remove_old-IsChained id (lookup id g.entries) g refl stays a in
    let still : lookup id old.leaving ≡ none =
      rw (leaving-remove_old (lookup id g.entries) g) stays in
    schedule_next-IsChained now id sched
      (retold old (insert id sched old.scheds) (insert id callback old.callbacks) old.started)
      (scheduled-IsChained old id sched (insert id callback old.callbacks) still chained) cleared
      (rw (fired-remove_old (lookup id g.entries) g) idle) still

lookup-mark_fired :
    (closures fired : List (ℕ × Closure)) (n j : ℕ) (o : Option Closure) (c : Closure)
    → lookup n closures ≡ o
    → lookup j (mark_fired n o fired) ≡ some c
    → ((n ≡ j) × (lookup j closures ≡ some c)) ⊎ (lookup j fired ≡ some c)
unfolding mark_fired
lookup-mark_fired closures fired n j none c known h = inr h
lookup-mark_fired closures fired n j (some d) c known h = elim (inserted n j d c fired h) [
  | inl (at, e) ↦ inl (at, rw (sym at) (rw (sym e) known))
  | inr before ↦ inr before
]

-- What is fired behind a tick was so before, or is the closure of an expired entry.
pub lookup-mark_all_fired :
    (closures : List (ℕ × Closure)) (es : List (ℕ × Entry)) (fired : List (ℕ × Closure)) (j : ℕ)
    (c : Closure)
    → lookup j (mark_all_fired closures es fired) ≡ some c
    → (((e : Entry) × (lookup j es ≡ some e)) × (lookup j closures ≡ some c))
      ⊎ (lookup j fired ≡ some c)
unfolding mark_all_fired lookup
lookup-mark_all_fired closures [] fired j c h = inr h
lookup-mark_all_fired closures ((n, e) ∷ es) fired j c h =
    elim (lookup-mark_all_fired closures es (mark_fired n (lookup n closures) fired) j c h) [
      | inl ((f, later), known) ↦ elim (Bool-cases (n == j)) [
        | inl same ↦ inl ((e, ground arith), known)
        | inr other ↦ inl ((f, ground arith), known)
      ]
      | inr before ↦ elim (lookup-mark_fired closures fired n j (lookup n closures) c refl before) [
        | inl (at, known) ↦ inl ((e, ground arith), known)
        | inr ran ↦ inr ran
      ]
    ]
