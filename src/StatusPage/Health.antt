-- ===== src/StatusPage/Health.antt =====
-- What `aggregateHealth` makes of the states of a component's monitors (pkg/status/aggregate.go).
use mathlib.Core.List.{Permᴰ}
use mathlib.Core.Path.{ap₂}
use tickraft.Base.{ℕ, ◌+◌, ◌≡◌, refl, sym, ap, ◌∙◌, List, [], ◌∷◌, if◌then◌else◌, ◌==◌, arith}
use tickraft.StatusPage.{
  Status, status_unknown, status_operational, status_degraded, status_partial_outage,
  status_major_outage, other, Tally, tally, tally_all, verdict, aggregate_health,
}

-- How many states are healthy, major outages, and other failures.
pub record Counts : Type 0 where
  pub healthy : ℕ
  pub outages : ℕ
  pub degraded : ℕ

unfoldable pub count_state : Status → Counts → Counts
count_state status_operational c = record c { healthy = c.healthy + 1 }
count_state status_major_outage c = record c { outages = c.outages + 1 }
count_state status_degraded c = record c { degraded = c.degraded + 1 }
count_state status_partial_outage c = record c { degraded = c.degraded + 1 }
count_state status_unknown c = c
count_state (other s) c = c

unfoldable pub counts : List Status → Counts
counts [] = record { healthy = 0; outages = 0; degraded = 0 }
counts (s ∷ ss) = count_state s (counts ss)

unfoldable pub health_of : Counts → Status
health_of c =
    if c.healthy + c.outages + c.degraded == 0
    then status_unknown
    else if c.outages + c.degraded == 0
    then status_operational
    else if c.healthy + c.degraded == 0
    then status_major_outage
    else if c.healthy + c.outages == 0
    then status_degraded
    else status_partial_outage

tally_all-counts :
    (t : Tally) (ss : List Status)
    → ((tally_all t ss).seen
        ≡ t.seen + (counts ss).healthy + (counts ss).outages + (counts ss).degraded)
      × ((tally_all t ss).bad ≡ t.bad + (counts ss).outages + (counts ss).degraded)
      × ((tally_all t ss).major ≡ t.major + (counts ss).outages)
unfolding tally_all counts tally count_state
tally_all-counts t [] = omega arith
tally_all-counts t (status_operational ∷ ss) =
    omega (arith, tally_all-counts (tally t status_operational) ss)
tally_all-counts t (status_unknown ∷ ss) = tally_all-counts t ss
tally_all-counts t (other x ∷ ss) = tally_all-counts t ss
tally_all-counts t (status_degraded ∷ ss) =
    omega (arith, tally_all-counts (tally t status_degraded) ss)
tally_all-counts t (status_partial_outage ∷ ss) =
    omega (arith, tally_all-counts (tally t status_partial_outage) ss)
tally_all-counts t (status_major_outage ∷ ss) =
    omega (arith, tally_all-counts (tally t status_major_outage) ss)

-- The health of a component by the numbers of its monitors that are healthy, in a major outage, and
-- degraded or partly out: unknown if there are none of these, operational if all are healthy, a major
-- outage if all are in one, degraded if all are degraded, and a partial outage for every mix.
pub aggregate_health-counts : (ss : List Status) → aggregate_health ss ≡ health_of (counts ss)
unfolding health_of verdict aggregate_health
aggregate_health-counts ss =
    ground (arith, tally_all-counts (record { bad = 0; major = 0; seen = 0 }) ss)

count_state_comm :
    (a b : Status) (c : Counts) → count_state a (count_state b c) ≡ count_state b (count_state a c)
unfolding count_state
count_state_comm a b c = ground arith

counts-Permᴰ : {xs ys : List Status} → Permᴰ xs ys → counts xs ≡ counts ys
unfolding counts
counts-Permᴰ Permᴰ.nil = refl
counts-Permᴰ (Permᴰ.cons e p) = ap₂ count_state e (counts-Permᴰ p)
counts-Permᴰ (Permᴰ.swap {a = a} {b = b} {l = l} e f) =
    count_state_comm a b (counts l) ∙ ap₂ (λ x y. count_state x (count_state y (counts l))) f e
counts-Permᴰ (Permᴰ.trans p q) = counts-Permᴰ p ∙ counts-Permᴰ q

-- The order in which a component's monitors are read does not change its health.
pub aggregate_health-Permᴰ :
    (xs ys : List Status) → Permᴰ xs ys → aggregate_health xs ≡ aggregate_health ys
aggregate_health-Permᴰ xs ys p =
    aggregate_health-counts xs ∙ (ap health_of (counts-Permᴰ p) ∙ sym (aggregate_health-counts ys))
