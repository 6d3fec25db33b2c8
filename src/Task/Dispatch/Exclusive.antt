-- ===== src/Task/Dispatch/Exclusive.antt =====
-- A task without concurrency has one run at a time (pkg/task/engine.go, pkg/task/events.go).
use tickraft.Base.{
  ℕ, ◌≡◌, ◌≢◌, ◌≤◌, refl, sym, ◌+◌, Bool, true, false, not, ◌&&◌, ◌||◌, List, [], ◌∷◌, Option, some,
  none, arith, Bool-cases, ◌==◌, if◌then◌else◌, inl, inr, lookup, insert, nat_key, lookup-insert,
  lookup-remove,
}
use tickraft.StatusPage.{AssetStatus}
use tickraft.Task.Sleep.{in_sleep_window}
use tickraft.Task.Dispatch.{
  Task, Slot, Engine, advance, hold, release_running, claim_free, try_claim_running, claim_or_hold,
  is_ready, dispatch_gated, trigger_event, trigger_all, is_held, drop_held, is_live, drop_live,
  on_completed, update_status, Event, slot_due, asset_changed, scheduled_by_hand, triggered,
  completed, unscheduled,
}

-- The calls of `trigger` for a task that are still to publish, and its runs that are live.
abbrev pub held_of : ℕ → List (ℕ × Bool) → ℕ
held_of task [] = 0
held_of task ((t, b) ∷ cs) = (if task == t then 1 else 0) + held_of task cs

abbrev pub live_of : ℕ → List ℕ → ℕ
live_of task [] = 0
live_of task (t ∷ ts) = (if task == t then 1 else 0) + live_of task ts

abbrev pub mark_of : Option (Unit {0}) → ℕ
mark_of none = 0
mark_of (some u) = 1

mark_of-bound : (o : Option (Unit {0})) → mark_of o ≤ 1
mark_of-bound none = omega arith
mark_of-bound (some u) = omega arith

-- One call or one run for a marker, and none without.
pub record IsExclusive (task : ℕ) (g : Engine) : Type 0 where
  pub under_way : held_of task g.held + live_of task g.live ≡ mark_of (lookup task g.running)

drop_held-count :
    (task other : ℕ) (b : Bool) (cs : List (ℕ × Bool))
    → is_held task b cs ≡ true
    → held_of other cs ≡ (if other == task then 1 else 0) + held_of other (drop_held task b cs)
unfolding is_held drop_held
drop_held-count task other b [] h = absurd (cc)
drop_held-count task other true ((t, true) ∷ cs) h =
    ground (arith, drop_held-count task other true cs)
drop_held-count task other true ((t, false) ∷ cs) h =
    ground (arith, drop_held-count task other true cs)
drop_held-count task other false ((t, true) ∷ cs) h =
    ground (arith, drop_held-count task other false cs)
drop_held-count task other false ((t, false) ∷ cs) h =
    ground (arith, drop_held-count task other false cs)

drop_live-count :
    (task other : ℕ) (ts : List ℕ)
    → is_live task ts ≡ true
    → live_of other ts ≡ (if other == task then 1 else 0) + live_of other (drop_live task ts)
unfolding is_live drop_live
drop_live-count task other [] h = absurd (cc)
drop_live-count task other (t ∷ ts) h = ground (arith, drop_live-count task other ts)

-- The events in which the task is one without concurrency, and which do not schedule it by hand.
abbrev pub OneAtATime : ℕ → Task → Type 0
OneAtATime id t = t.id ≡ id → t.concurrency ≡ 1

unfoldable pub AllOneAtATime : ℕ → List (Bool × Task) → Type 0
AllOneAtATime id [] = Unit
AllOneAtATime id ((owned, t) ∷ ts) = OneAtATime id t × AllOneAtATime id ts

abbrev pub Gated : ℕ → Event → Type 0
Gated id (slot_due owned t s) = OneAtATime id t
Gated id (asset_changed asset status tasks) = AllOneAtATime id tasks
Gated id (scheduled_by_hand task) = id ≢ task
Gated id (triggered now task for_slot published) = Unit
Gated id (completed task status) = Unit
Gated id (unscheduled task) = Unit

unfoldable pub AllGated : ℕ → List Event → Type 0
AllGated id [] = Unit
AllGated id (e ∷ es) = Gated id e × AllGated id es

module _ (id : ℕ) where
  claim_free-IsExclusive :
      (task : ℕ) (b : Bool) (o : Option (Unit {0})) (g : Engine)
      → lookup task g.running ≡ o
      → IsExclusive id g
      → IsExclusive id (claim_free task b o g)
  unfolding claim_free hold
  claim_free-IsExclusive task b (some u) g h x = x
  claim_free-IsExclusive task b none g h x = record {
    under_way = let before = x.under_way in ground (arith, lookup-insert task id tt g.running);
  }

  pub hold-IsExclusive :
      (task : ℕ) (b : Bool) (g : Engine)
      → id ≢ task
      → IsExclusive id g
      → IsExclusive id (hold task b g)
  unfolding hold
  hold-IsExclusive task b g other x = record {
    under_way = let before = x.under_way in ground arith;
  }

  claim_or_hold-IsExclusive :
      (t : Task) (b : Bool) (g : Engine)
      → OneAtATime id t
      → IsExclusive id g
      → IsExclusive id (claim_or_hold t b g)
  unfolding claim_or_hold try_claim_running
  claim_or_hold-IsExclusive t b g one x = elim (Bool-cases (t.concurrency == 1)) [
    | inl exclusive ↦ rw exclusive (claim_free-IsExclusive t.id b (lookup t.id g.running) g refl x)
    | inr many ↦
        rw many (hold-IsExclusive t.id b g (λ e. let exclusive = one (sym e) in ground arith) x)
  ]

  pub advance-IsExclusive :
      (task at : ℕ) (g : Engine) → IsExclusive id g → IsExclusive id (advance task at g)
  unfolding advance
  advance-IsExclusive task at g x = record { under_way = x.under_way }

  pub if-IsExclusive :
      (b : Bool) (g h : Engine)
      → IsExclusive id g
      → IsExclusive id h
      → IsExclusive id (if b then g else h)
  if-IsExclusive true g h x y = x
  if-IsExclusive false g h x y = y

  pub dispatch_gated-IsExclusive :
      (owned : Bool) (t : Task) (s : Slot) (g : Engine)
      → OneAtATime id t
      → IsExclusive id g
      → IsExclusive id (dispatch_gated owned t s g)
  unfolding dispatch_gated
  dispatch_gated-IsExclusive owned t s g one x = if-IsExclusive (not owned) g _ x (
      if-IsExclusive (in_sleep_window t.sleep_windows s.hour s.minute s.weekday)
        (advance t.id s.at g) _ (advance-IsExclusive t.id s.at g x)
        (if-IsExclusive (is_ready t g) (claim_or_hold t true g) g
          (claim_or_hold-IsExclusive t true g one x) x))

  pub trigger_all-IsExclusive :
      (asset : ℕ) (ts : List (Bool × Task)) (g : Engine)
      → AllOneAtATime id ts
      → IsExclusive id g
      → IsExclusive id (trigger_all asset ts g)
  unfolding trigger_all trigger_event AllOneAtATime
  trigger_all-IsExclusive asset [] g one x = x
  trigger_all-IsExclusive asset ((owned, t) ∷ ts) g one x =
      trigger_all-IsExclusive asset ts (trigger_event asset owned t g) one.1 (
        if-IsExclusive (t.enabled && (t.asset_id == 0 || t.asset_id == asset) && owned)
          (claim_or_hold t false g) g (claim_or_hold-IsExclusive t false g one.0 x) x)

  pub sent-IsExclusive :
      (task : ℕ) (b : Bool) (g : Engine)
      → is_held task b g.held ≡ true
      → IsExclusive id g
      → IsExclusive id (record g {
        running = insert task tt g.running;
        held = drop_held task b g.held;
        live = task ∷ g.live;
      })
  sent-IsExclusive task b g h x = record {
    under_way =
        let before = x.under_way in
        let bound = mark_of-bound (lookup id g.running) in
        ground (arith, drop_held-count task id b g.held h, lookup-insert task id tt g.running);
  }

  pub failed-IsExclusive :
      (task : ℕ) (b : Bool) (g : Engine)
      → is_held task b g.held ≡ true
      → IsExclusive id g
      → IsExclusive id (
          release_running task
            (record g { running = insert task tt g.running; held = drop_held task b g.held }))
  unfolding release_running
  failed-IsExclusive task b g h x = record {
    under_way =
        let before = x.under_way in
        let bound = mark_of-bound (lookup id g.running) in
        ground (
          arith,
          drop_held-count task id b g.held h,
          lookup-insert task id tt g.running,
          lookup-remove task id (insert task tt g.running),
        );
  }

  pub on_completed-IsExclusive :
      (task : ℕ) (status : AssetStatus) (g : Engine)
      → is_live task g.live ≡ true
      → IsExclusive id g
      → IsExclusive id (on_completed task status g)
  unfolding on_completed release_running update_status
  on_completed-IsExclusive task status g h x = record {
    under_way =
        let before = x.under_way in
        let bound = mark_of-bound (lookup id g.running) in
        ground (arith, drop_live-count task id g.live h, lookup-remove task id g.running);
  }
