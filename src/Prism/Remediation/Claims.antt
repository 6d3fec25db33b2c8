-- ===== src/Prism/Remediation/Claims.antt =====
-- A rule runs at most once at a time on an asset (pkg/prism/remediation/engine.go).
use tickraft.Base.{
  ℕ, ◌≡◌, refl, sym, ◌∙◌, Bool, true, false, ◌&&◌, ◌||◌, ◌⊎◌, List, ◌∷◌, Option, some, none, arith,
  inl, inr, Bool-cases, if◌then◌else◌, lookup, remove, Distinct, lookup-insert, lookup-remove,
  remove-Distinct,
}
use tickraft.Cron.Text.{Text, text_eq}
use tickraft.Prism.Keys.{text_key, text_eq_iff}
use tickraft.Prism.Remediation.{
  Rule, Job, is_active, in_flight_key, claim_free, try_claim_in_flight, release_in_flight, Engine,
  claimed, claim_rule, give_up, submit_job, finish_job, claims, gives_up, submits, finishes,
  Reachable, start, go,
}

abbrev pub is_in {ℓ} : {A : Type ℓ} → Option A → Bool
is_in none = false
is_in (some a) = true

-- The keys in flight are those of the claims in hand and of the jobs, and no key is there twice.
pub record OneEach (g : Engine) : Type 0 where
  pub held_distinct : Distinct g.held
  pub jobs_distinct : Distinct g.jobs
  pub apart : (k : Text) → (is_in (lookup k g.held) && is_in (lookup k g.jobs)) ≡ false
  pub held_keyed :
      (k : Text) (c : Job) → lookup k g.held ≡ some c → k ≡ in_flight_key c.rule.id c.asset
  pub jobs_keyed :
      (k : Text) (c : Job) → lookup k g.jobs ≡ some c → k ≡ in_flight_key c.rule.id c.asset
  pub in_flight :
      (k : Text)
      → is_in (lookup k g.in_flight) ≡ (is_in (lookup k g.held) || is_in (lookup k g.jobs))

lookup-cons :
    (k j : Text) (r : Job) (m : List (Text × Job))
    → lookup k ((j, r) ∷ m) ≡ (if text_eq j k then some r else lookup k m)
unfolding lookup
lookup-cons k j r m = refl

-- Each claim or job stands under the key of its rule and asset.
abbrev Keyed : List (Text × Job) → Type 0
Keyed m = (k : Text) (c : Job) → lookup k m ≡ some c → k ≡ in_flight_key c.rule.id c.asset

Keyed-cons :
    (key : Text) (r : Job) (m : List (Text × Job))
    → key ≡ in_flight_key r.rule.id r.asset
    → Keyed m
    → Keyed ((key, r) ∷ m)
Keyed-cons key r m named all k c h = elim (Bool-cases (text_eq key k)) [
  | inl same ↦
      let at : key ≡ k = (text_eq_iff key k).0 same in
      let found : r ≡ c = let here = lookup-cons k key r m in ground arith in
      rw (sym at) (rw (sym found) named)
  | inr other ↦ all k c (let here = lookup-cons k key r m in ground arith)
]

Keyed-remove : (key : Text) (m : List (Text × Job)) → Keyed m → Keyed (remove key m)
Keyed-remove key m all k c h = all k c (let left = lookup-remove key k m in ground arith)

is_in-none : (o : Option Job) → is_in o ≡ false → o ≡ none
is_in-none none h = refl
is_in-none (some r) h = absurd (cc)

claimed-OneEach :
    (g : Engine) (key : Text) (r : Job) (o : Option (Unit {0}))
    → lookup key g.in_flight ≡ o
    → key ≡ in_flight_key r.rule.id r.asset
    → OneEach g
    → OneEach (claimed g key r (claim_free g.in_flight key o))
unfolding claimed claim_free
claimed-OneEach g key r (some u) h named a = a
claimed-OneEach g key r none h named a =
    let free : (is_in (lookup key g.held) || is_in (lookup key g.jobs)) ≡ false =
      sym (a.in_flight key) ∙ rw h refl in
    let not_held = is_in-none (lookup key g.held) (ground arith) in
    let no_job = is_in-none (lookup key g.jobs) (ground arith) in
    record {
      held_distinct = (not_held, a.held_distinct);
      jobs_distinct = a.jobs_distinct;
      apart = λ k. ground (arith, lookup-cons k key r g.held, a.apart k, text_eq_iff key k);
      held_keyed = Keyed-cons key r g.held named a.held_keyed;
      jobs_keyed = a.jobs_keyed;
      in_flight = λ k. ground (
        arith,
        lookup-cons k key r g.held,
        lookup-insert key k tt g.in_flight,
        a.in_flight k,
        text_eq_iff key k,
      );
    }

claim_rule-OneEach :
    (g : Engine) (r : Rule) (asset : ℕ) → OneEach g → OneEach (claim_rule g r asset)
unfolding claim_rule try_claim_in_flight
claim_rule-OneEach g r asset a = elim (Bool-cases (r.enabled && is_active r.status)) [
  | inr off ↦ rw off a
  | inl on ↦ rw on (
      claimed-OneEach g (in_flight_key r.id asset) (record { rule = r; asset = asset })
        (lookup (in_flight_key r.id asset) g.in_flight) refl refl a)
]

give_up-OneEach :
    (g : Engine) (key : Text) (r : Job)
    → lookup key g.held ≡ some r
    → OneEach g
    → OneEach (give_up g key)
unfolding give_up release_in_flight
give_up-OneEach g key r h a = record {
  held_distinct = remove-Distinct key g.held a.held_distinct;
  jobs_distinct = a.jobs_distinct;
  apart = λ k. ground (arith, lookup-remove key k g.held, a.apart k);
  held_keyed = Keyed-remove key g.held a.held_keyed;
  jobs_keyed = a.jobs_keyed;
  in_flight = λ k. ground (
    arith,
    lookup-remove key k g.held,
    lookup-remove key k g.in_flight,
    a.in_flight k,
    a.apart k,
    text_eq_iff key k,
  );
}

submit_job-OneEach :
    (g : Engine) (key : Text) (r : Job)
    → lookup key g.held ≡ some r
    → OneEach g
    → OneEach (submit_job g key r)
unfolding submit_job
submit_job-OneEach g key r h a =
    let no_job = is_in-none (lookup key g.jobs) (ground (arith, a.apart key)) in
    record {
      held_distinct = remove-Distinct key g.held a.held_distinct;
      jobs_distinct = (no_job, a.jobs_distinct);
      apart =
          λ k. ground (arith, lookup-remove key k g.held, lookup-cons k key r g.jobs, a.apart k);
      held_keyed = Keyed-remove key g.held a.held_keyed;
      jobs_keyed = Keyed-cons key r g.jobs (a.held_keyed key r h) a.jobs_keyed;
      in_flight = λ k. ground (
        arith,
        lookup-remove key k g.held,
        lookup-cons k key r g.jobs,
        a.in_flight k,
        text_eq_iff key k,
      );
    }

finish_job-OneEach :
    (g : Engine) (key : Text) (r : Job)
    → lookup key g.jobs ≡ some r
    → OneEach g
    → OneEach (finish_job g key)
unfolding finish_job release_in_flight
finish_job-OneEach g key r h a = record {
  held_distinct = a.held_distinct;
  jobs_distinct = remove-Distinct key g.jobs a.jobs_distinct;
  apart = λ k. ground (arith, lookup-remove key k g.jobs, a.apart k);
  held_keyed = a.held_keyed;
  jobs_keyed = Keyed-remove key g.jobs a.jobs_keyed;
  in_flight = λ k. ground (
    arith,
    lookup-remove key k g.jobs,
    lookup-remove key k g.in_flight,
    a.in_flight k,
    a.apart k,
    text_eq_iff key k,
  );
}

OneEach-Reachable : (g : Engine) → Reachable g → OneEach g
unfolding lookup
OneEach-Reachable _ start = record {
  held_distinct = tt;
  jobs_distinct = tt;
  apart = λ k. refl;
  held_keyed = λ k c h. absurd (cc);
  jobs_keyed = λ k c h. absurd (cc);
  in_flight = λ k. refl;
}
OneEach-Reachable _ (go g _ before (claims _ r asset)) =
    claim_rule-OneEach g r asset (OneEach-Reachable g before)
OneEach-Reachable _ (go g _ before (gives_up _ key r h)) =
    give_up-OneEach g key r h (OneEach-Reachable g before)
OneEach-Reachable _ (go g _ before (submits _ key r now h open_gates)) =
    submit_job-OneEach g key r h (OneEach-Reachable g before)
OneEach-Reachable _ (go g _ before (finishes _ key r h)) =
    finish_job-OneEach g key r h (OneEach-Reachable g before)

-- A claim in hand or a job, under its key.
abbrev pub UnderWay : Engine → Text → Job → Type 0
UnderWay g k c = (lookup k g.held ≡ some c) ⊎ (lookup k g.jobs ≡ some c)

UnderWay-key :
    (g : Engine) (k : Text) (c : Job)
    → OneEach g
    → UnderWay g k c
    → k ≡ in_flight_key c.rule.id c.asset
UnderWay-key g k c a (inl h) = a.held_keyed k c h
UnderWay-key g k c a (inr h) = a.jobs_keyed k c h

-- Whatever triggers and jobs run side by side, in any interleaving and with rules loaded at any time: each
-- claim in hand and each job stands under the key of its rule and asset, two of the same rule and asset
-- under the same one; no key is twice among the claims or the jobs, nor among both, and the keys in flight
-- are exactly theirs. So there is one claim or one job at most for a rule and an asset.
pub Reachable-OneEach :
    (g : Engine)
    → Reachable g
    → OneEach g
      × ((k j : Text) (c d : Job)
          → UnderWay g k c
          → UnderWay g j d
          → c.rule.id ≡ d.rule.id
          → c.asset ≡ d.asset
          → k ≡ j)
Reachable-OneEach g r =
    let a = OneEach-Reachable g r in
    (
      a,
      λ k j c d u v rule asset.
          let k_is = UnderWay-key g k c a u in let j_is = UnderWay-key g j d a v in cc,
    )
