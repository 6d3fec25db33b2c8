-- ===== src/Scheduler/Engine/OneChain.antt =====
-- Ticks, callbacks that end, and any run of the engine (pkg/scheduler/engine_impl.go): an id has one chain.
use tickraft.Base.{
  ℕ, ◌≡◌, ◌≢◌, refl, sym, ap, ◌∙◌, Bool, true, false, Option, some, none, arith, Bool-cases,
  Option-cases, ◌==◌, if◌then◌else◌, inl, inr, lookup, remove, nat_key, lookup-remove,
}
use tickraft.TimeWheel.{Entry, tick}
use tickraft.TimeWheel.Turn.{tick-IsCoherent}
use tickraft.TimeWheel.Absence.{tick-Absent, uncollected, collected}
use tickraft.Scheduler.Engine.{
  Schedule, Closure, Engine, mark_all_fired, tick_wheel, reschedule, finish_closure,
}
use tickraft.Scheduler.Engine.Pending.{first, IsIdle, WaitsIn, IsChained, IsCleared}
use tickraft.Scheduler.Engine.Chains.{schedule_next-IsChained, lookup-mark_all_fired}

-- An expired entry was waiting, as the one that its id names.
expired_waits :
    (g : Engine) (now k : ℕ) (e : Entry)
    → IsChained g
    → lookup k (tick g.wheel now).1 ≡ some e
    → WaitsIn g k
expired_waits g now k e a h = elim (a.waiting k) [
  | inl absent ↦ let none_out = uncollected g.wheel now k a.coherent absent in absurd (cc)
  | inr w ↦ w
]

abbrev pub turned : Engine → ℕ → Engine
turned g now = record g {
  wheel = (tick g.wheel now).0;
  fired = mark_all_fired g.closures (tick g.wheel now).1 g.fired;
}

-- Two entries that wait for the same id are one.
pub waits_once :
    (g : Engine) (j k : ℕ) (w : WaitsIn g j) (v : WaitsIn g k) → w.closure.id ≡ v.closure.id → j ≡ k
waits_once g j k w v same =
    let at_j : first (lookup v.closure.id g.leaving) (lookup v.closure.id g.entries) ≡ some j =
      rw (sym same) w.current in
    let at_k = v.current in ground arith

pub known_once :
    (g : Engine) (k : ℕ) (c : Closure) (w : WaitsIn g k)
    → lookup k g.closures ≡ some c
    → w.closure ≡ c
known_once g k c w h = let known = w.known in cc

turned-IsChained : (g : Engine) (now : ℕ) → IsChained g → IsChained (turned g now)
turned-IsChained g now a = record {
  coherent = tick-IsCoherent g.wheel now a.coherent;
  fresh = λ j h.
      let (absent, unknown, idle) = a.fresh j h in
      (
        tick-Absent g.wheel now j a.coherent absent,
        unknown,
        elim (Option-cases (lookup j (mark_all_fired g.closures (tick g.wheel now).1 g.fired))) [
          | inl none_runs ↦ none_runs
          | inr (c, runs) ↦
              elim (lookup-mark_all_fired g.closures (tick g.wheel now).1 g.fired j c runs) [
                | inl (out, known) ↦ absurd (cc)
                | inr ran ↦ absurd (cc)
              ]
        ],
      );
  off = a.off;
  waiting = λ j. elim (Option-cases (lookup j (tick g.wheel now).1)) [
    | inr (e, out) ↦ inl (collected g.wheel now j e a.coherent out)
    | inl in_wheel ↦ elim (a.waiting j) [
      | inl absent ↦ inl (tick-Absent g.wheel now j a.coherent absent)
      | inr w ↦ inr (record {
        closure = w.closure;
        known = w.known;
        current = w.current;
        idle = λ k c h same.
            elim (lookup-mark_all_fired g.closures (tick g.wheel now).1 g.fired k c h) [
              | inr ran ↦ absurd (w.idle k c ran same)
              | inl ((e, out), known) ↦
                  let v = expired_waits g now k e a out in
                  let at = waits_once g k j v w (ap Closure.id (known_once g k c v known) ∙ same) in
                  let there : lookup k (tick g.wheel now).1 ≡ none = rw at in_wheel in absurd (cc)
            ];
      })
    ]
  ];
  runs = λ j c h. elim (lookup-mark_all_fired g.closures (tick g.wheel now).1 g.fired j c h) [
    | inl (out, known) ↦ known
    | inr ran ↦ a.runs j c ran
  ];
  single = λ j k c d h i same.
      elim (lookup-mark_all_fired g.closures (tick g.wheel now).1 g.fired j c h) [
        | inl ((e, out), known) ↦
            let w = expired_waits g now j e a out in
            let is_c = ap Closure.id (known_once g j c w known) in
            elim (lookup-mark_all_fired g.closures (tick g.wheel now).1 g.fired k d i) [
              | inl ((f, out_too), known_too) ↦
                  let v = expired_waits g now k f a out_too in
                  waits_once g j k w v
                    (is_c ∙ same ∙ sym (ap Closure.id (known_once g k d v known_too)))
              | inr ran ↦ absurd (w.idle k d ran (sym same ∙ sym is_c))
            ]
        | inr ran ↦ elim (lookup-mark_all_fired g.closures (tick g.wheel now).1 g.fired k d i) [
          | inl ((f, out), known) ↦
              let v = expired_waits g now k f a out in
              absurd (v.idle j c ran (same ∙ sym (ap Closure.id (known_once g k d v known))))
          | inr ran_too ↦ a.single j k c d ran ran_too same
        ]
      ];
}

tick_wheel_on :
    (now : ℕ) (g : Engine) (b : Bool) → IsChained g → IsChained (if b then turned g now else g)
tick_wheel_on now g true a = turned-IsChained g now a
tick_wheel_on now g false a = a

pub tick_wheel-IsChained : (now : ℕ) (g : Engine) → IsChained g → IsChained (tick_wheel now g)
unfolding tick_wheel
tick_wheel-IsChained now g a = tick_wheel_on now g g.started a

-- The callback of an entry is over.
abbrev pub ended : ℕ → Engine → Engine
ended entry g = record g { fired = remove entry g.fired }

pub ended_ran :
    (g : Engine) (entry k : ℕ) (d : Closure)
    → lookup k (ended entry g).fired ≡ some d
    → (lookup k g.fired ≡ some d) × (entry ≢ k)
ended_ran g entry k d h =
    let left = lookup-remove entry k g.fired in
    elim (Bool-cases (entry == k)) [
      | inl same ↦ absurd (ground arith)
      | inr other ↦ (ground arith, ground arith)
    ]

pub ended-IsChained : (g : Engine) (entry : ℕ) → IsChained g → IsChained (ended entry g)
ended-IsChained g entry a = record {
  coherent = a.coherent;
  fresh = λ j h.
      let (absent, unknown, idle) = a.fresh j h in
      (absent, unknown, ground (arith, lookup-remove entry j g.fired));
  off = a.off;
  waiting = λ j. elim (a.waiting j) [
    | inl absent ↦ inl absent
    | inr w ↦ inr (record {
      closure = w.closure;
      known = w.known;
      current = w.current;
      idle = λ k d h. w.idle k d (ended_ran g entry k d h).0;
    })
  ];
  runs = λ j c h. a.runs j c (ended_ran g entry j c h).0;
  single = λ j k c d h i same.
      a.single j k c d (ended_ran g entry j c h).0 (ended_ran g entry k d i).0 same;
}

ended-IsIdle :
    (g : Engine) (entry : ℕ) (c : Closure)
    → IsChained g
    → lookup entry g.fired ≡ some c
    → IsIdle (ended entry g).fired c.id
ended-IsIdle g entry c a h k d i same =
    let (ran, other) = ended_ran g entry k d i in other (a.single entry k c d h ran (sym same))

ended-IsCleared :
    (g : Engine) (entry : ℕ) (c : Closure)
    → IsChained g
    → lookup entry g.fired ≡ some c
    → IsCleared (ended entry g) c.id
ended-IsCleared g entry c a h j = elim (a.waiting j) [
  | inl absent ↦ inl absent
  | inr w ↦ inr (
    record {
      closure = w.closure;
      known = w.known;
      current = w.current;
      idle = λ k d i. w.idle k d (ended_ran g entry k d i).0;
    },
    λ e. w.idle entry c h (sym e),
  )
]

reschedule-IsChained :
    (now id : ℕ) (sched : Option Schedule) (g : Engine)
    → lookup id g.scheds ≡ sched
    → IsChained g
    → IsCleared g id
    → IsIdle g.fired id
    → IsChained (reschedule now id sched g)
unfolding reschedule
reschedule-IsChained now id none g h a cleared idle = a
reschedule-IsChained now id (some sched) g h a cleared idle =
    elim (Option-cases (lookup id g.leaving)) [
      | inl stays ↦ schedule_next-IsChained now id sched g a cleared idle stays
      | inr (n, leaves) ↦ absurd (let gone = (a.off id n leaves).1 in cc)
    ]

pub finish_closure-IsChained :
    (now entry : ℕ) (o : Option Closure) (g : Engine)
    → lookup entry g.fired ≡ o
    → IsChained g
    → IsChained (finish_closure now entry o g)
unfolding finish_closure
finish_closure-IsChained now entry none g h a = a
finish_closure-IsChained now entry (some c) g h a =
    reschedule-IsChained now c.id (lookup c.id g.scheds) (ended entry g) refl
      (ended-IsChained g entry a) (ended-IsCleared g entry c a h) (ended-IsIdle g entry c a h)
