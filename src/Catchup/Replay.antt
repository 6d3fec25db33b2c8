-- ===== src/Catchup/Replay.antt =====
-- What `runCatchup` of pkg/task/catchup.go replays.
use tickraft.Base.{
  ℕ, zero, suc, ◌≡◌, ◌<◌, refl, sym, ◌∙◌, ap, ◌+◌, ◌-◌, Bool, true, false, ◌&&◌, List, [], ◌∷◌,
  some, arith, inl, inr, Bool-cases, if◌then◌else◌, length, max,
}
use tickraft.Catchup.{
  Schedule, schedule_interval, schedule_cron, schedule_other, CatchupPolicy, policy_skip,
  policy_once, policy_all, last_slot, by_policy, advance_watermark, is_replay, is_timed,
  SlotOutcome, slot_slept, slot_skipped, slot_published, advance_for_slot, replay_slots,
  missed_slots, run_catchup,
}
use tickraft.Catchup.Windows.{drop_first, latest, length-drop_first, AllMissed, missed_slots-latest}

-- Of all missed times the latest one, or the latest ten, by the policy.
abbrev pub replayed : CatchupPolicy → List ℕ → List ℕ
replayed policy_skip ts = []
replayed policy_once ts = drop_first (length ts - 1) ts
replayed policy_all ts = drop_first (length ts - 10) ts

last_slot_lem : (ts : List ℕ) → last_slot ts ≡ drop_first (length ts - 1) ts
unfolding last_slot
last_slot_lem [] = refl
last_slot_lem (t ∷ []) = refl
last_slot_lem (t ∷ u ∷ ts) =
    let more : suc (suc (length ts)) - 1 ≡ suc (suc (length ts) - 1) = omega arith in
    rw more (last_slot_lem (u ∷ ts))

drop_first_twice : (m n : ℕ) (ts : List ℕ) → drop_first m (drop_first n ts) ≡ drop_first (n + m) ts
drop_first_twice m zero ts = let same : m ≡ 0 + m = omega arith in ap (λ k. drop_first k ts) same
drop_first_twice zero (suc n) [] =
    let same : suc (n + 0) ≡ suc n + 0 = omega arith in ap (λ k. drop_first k []) same
drop_first_twice (suc m) (suc n) [] =
    let same : suc (n + suc m) ≡ suc n + suc m = omega arith in ap (λ k. drop_first k []) same
drop_first_twice m (suc n) (t ∷ ts) =
    let same : suc (n + m) ≡ suc n + m = omega arith in
    drop_first_twice m n ts ∙ ap (λ k. drop_first k (t ∷ ts)) same

by_policy-latest :
    (policy : CatchupPolicy) (ts : List ℕ) → by_policy policy (latest ts).slots ≡ replayed policy ts
unfolding by_policy
by_policy-latest policy_skip ts = refl
by_policy-latest policy_all ts = refl
by_policy-latest policy_once ts =
    let kept = length-drop_first (length ts - 10) ts in
    let left : length ts - 10 + (length (drop_first (length ts - 10) ts) - 1) ≡ length ts - 1 =
      omega (arith, kept) in
    last_slot_lem (drop_first (length ts - 10) ts)
    ∙ drop_first_twice (length (drop_first (length ts - 10) ts) - 1) (length ts - 10) ts
    ∙ ap (λ k. drop_first k ts) left

other_replays_none : (policy : CatchupPolicy) → replayed policy [] ≡ []
other_replays_none policy_skip = refl
other_replays_none policy_once = refl
other_replays_none policy_all = refl

skip_replays_none :
    (policy : CatchupPolicy) (ts : List ℕ) → is_replay policy ≡ false → replayed policy ts ≡ []
skip_replays_none policy_skip ts h = refl
skip_replays_none policy_once ts h = absurd (cc)
skip_replays_none policy_all ts h = absurd (cc)

untimed_missed :
    (s : Schedule) (watermark now : ℕ) (ts : List ℕ)
    → is_timed s ≡ false
    → AllMissed s watermark now ts
    → ts ≡ []
untimed_missed (schedule_interval interval) watermark now ts h all = absurd (cc)
untimed_missed (schedule_cron next_after) watermark now ts h all = absurd (cc)
untimed_missed schedule_other watermark now ts h all = all

-- The latest time to which the slots of a list move the watermark.
abbrev pub moved_to : SlotOutcome → ℕ → ℕ
moved_to slot_slept slot = slot
moved_to slot_skipped slot = 0
moved_to (slot_published at) slot = at

abbrev pub latest_move : (ℕ → SlotOutcome) → List ℕ → ℕ
latest_move outcome [] = 0
latest_move outcome (slot ∷ slots) = max (moved_to (outcome slot) slot) (latest_move outcome slots)

advance_for_slot_lem :
    (o : SlotOutcome) (slot watermark : ℕ)
    → advance_for_slot o slot watermark ≡ max watermark (moved_to o slot)
unfolding advance_for_slot advance_watermark
advance_for_slot_lem slot_slept slot watermark = ground arith
advance_for_slot_lem slot_skipped slot watermark = ground arith
advance_for_slot_lem (slot_published at) slot watermark = ground arith

replay_slots-latest_move :
    (outcome : ℕ → SlotOutcome) (slots : List ℕ) (watermark : ℕ)
    → replay_slots outcome slots watermark ≡ max watermark (latest_move outcome slots)
unfolding replay_slots
replay_slots-latest_move outcome [] watermark = ground arith
replay_slots-latest_move outcome (slot ∷ slots) watermark =
    let first = advance_for_slot_lem (outcome slot) slot watermark in
    let rest =
      replay_slots-latest_move outcome slots (advance_for_slot (outcome slot) slot watermark) in
    rest ∙ rw first (omega arith)

end_of_replay :
    (outcome : ℕ → SlotOutcome) (slots : List ℕ) (watermark now : ℕ)
    → watermark < now
    → advance_watermark (replay_slots outcome slots watermark) now
      ≡ max now (latest_move outcome slots)
unfolding advance_watermark
end_of_replay outcome slots watermark now early =
    let fold = replay_slots-latest_move outcome slots watermark in ground arith

-- When `ts` are all times that the task's schedule has missed since its watermark (fewer than the limit of the
-- loop, for a cron schedule), and whatever comes of each slot (a sleep window, a gate that keeps it back, or
-- a publish at some time): the instance that owns the task hands on the latest of them (policy once), the
-- latest ten, or all if there are fewer (policy all), or none (policy skip), in their order, and every other
-- instance none. When the owner may replay, the watermark is then the latest of now, of the times of the
-- publishes, and of the slots in a sleep window, and it has not moved otherwise.
pub run_catchup-latest :
    (owned : Bool) (policy : CatchupPolicy) (s : Schedule) (outcome : ℕ → SlotOutcome)
    (watermark now : ℕ) (ts : List ℕ)
    → watermark < now
    → AllMissed s watermark now ts
    → ((run_catchup owned policy s outcome (some watermark) now).0
        ≡ (if owned then replayed policy ts else []))
      × ((run_catchup owned policy s outcome (some watermark) now).1
          ≡ some (
              if is_replay policy && is_timed s && owned
              then max now (latest_move outcome (replayed policy ts))
              else watermark))
unfolding run_catchup
run_catchup-latest false policy s outcome watermark now ts early all =
    let shut : (is_replay policy && is_timed s && false) ≡ false = ground arith in
    rw shut (refl, refl)
run_catchup-latest true policy s outcome watermark now ts early all =
    elim (Bool-cases (is_replay policy)) [
      | inr skips ↦ rw skips (sym (skip_replays_none policy ts skips), refl)
      | inl replays ↦ rw replays (elim (Bool-cases (is_timed s)) [
        | inr untimed ↦
            let empty = untimed_missed s watermark now ts untimed all in
            rw untimed (rw empty (sym (other_replays_none policy), refl))
        | inl timed ↦
            let slots : by_policy policy (missed_slots s watermark now).slots ≡ replayed policy ts =
              ap (λ m. by_policy policy m.slots) (missed_slots-latest s watermark now ts early all)
              ∙ by_policy-latest policy ts in
            rw timed (
              rw slots
                (refl, ap some (end_of_replay outcome (replayed policy ts) watermark now early)))
      ])
    ]
