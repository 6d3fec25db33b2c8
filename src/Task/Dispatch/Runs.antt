-- ===== src/Task/Dispatch/Runs.antt =====
-- Any order of slots, status changes, publishes and completions in the task engine (pkg/task/engine.go,
-- pkg/task/events.go).
use tickraft.Base.{ℕ, ◌≡◌, refl, Bool, true, false, List, [], ◌∷◌, if◌then◌else◌, lookup, nat_key}
use tickraft.Task.Dispatch.{
  Engine, new_engine, schedule, handle_status_change, is_abnormal, is_held, trigger, is_live, reset,
  Event, slot_due, asset_changed, scheduled_by_hand, triggered, completed, unscheduled, step, run,
}
use tickraft.Task.Dispatch.Exclusive.{
  IsExclusive, Gated, AllGated, hold-IsExclusive, if-IsExclusive, dispatch_gated-IsExclusive,
  trigger_all-IsExclusive, sent-IsExclusive, failed-IsExclusive, on_completed-IsExclusive,
  advance-IsExclusive,
}

module _ (id : ℕ) where
  sent_for-IsExclusive :
      (now task : ℕ) (b : Bool) (g : Engine)
      → is_held task b g.held ≡ true
      → IsExclusive id g
      → IsExclusive id (trigger now task b true g)
  unfolding trigger
  sent_for-IsExclusive now task true g h x =
      advance-IsExclusive id task now _ (sent-IsExclusive id task true g h x)
  sent_for-IsExclusive now task false g h x = sent-IsExclusive id task false g h x

  trigger-IsExclusive :
      (now task : ℕ) (b published : Bool) (g : Engine)
      → is_held task b g.held ≡ true
      → IsExclusive id g
      → IsExclusive id (trigger now task b published g)
  unfolding trigger
  trigger-IsExclusive now task b true g h x = sent_for-IsExclusive now task b g h x
  trigger-IsExclusive now task b false g h x = failed-IsExclusive id task b g h x

  guarded-IsExclusive :
      (b : Bool) (g h : Engine)
      → (b ≡ true → IsExclusive id h)
      → IsExclusive id g
      → IsExclusive id (if b then h else g)
  guarded-IsExclusive true g h x y = x refl
  guarded-IsExclusive false g h x y = y

  step-IsExclusive :
      (g : Engine) (e : Event) → Gated id e → IsExclusive id g → IsExclusive id (step g e)
  unfolding step schedule handle_status_change reset
  step-IsExclusive g (slot_due owned t s) one x = dispatch_gated-IsExclusive id owned t s g one x
  step-IsExclusive g (asset_changed asset status tasks) one x =
      if-IsExclusive id (is_abnormal status) _ g (trigger_all-IsExclusive id asset tasks g one x) x
  step-IsExclusive g (scheduled_by_hand task) other x = hold-IsExclusive id task false g other x
  step-IsExclusive g (triggered now task b published) one x =
      guarded-IsExclusive (is_held task b g.held) g _
        (λ h. trigger-IsExclusive now task b published g h x) x
  step-IsExclusive g (completed task status) one x =
      guarded-IsExclusive (is_live task g.live) g _
        (λ h. on_completed-IsExclusive id task status g h x) x
  step-IsExclusive g (unscheduled task) one x = record { under_way = x.under_way }

  run_from-IsExclusive :
      (g : Engine) (es : List Event) → AllGated id es → IsExclusive id g → IsExclusive id (run g es)
  unfolding run AllGated
  run_from-IsExclusive g [] one x = x
  run_from-IsExclusive g (e ∷ es) one x =
      run_from-IsExclusive (step g e) es one.1 (step-IsExclusive g e one.0 x)

-- Whatever slots come due, assets change, publishes succeed or fail and runs complete, in any order, when the
-- task never has a concurrency other than 1 and is not scheduled by hand: it has at most one call that is to
-- publish or one run that is live, and its marker is set exactly while it has one.
pub run-IsExclusive :
    (id : ℕ) (es : List Event) → AllGated id es → IsExclusive id (run new_engine es)
unfolding lookup
run-IsExclusive id es one = run_from-IsExclusive id new_engine es one (record { under_way = refl })
