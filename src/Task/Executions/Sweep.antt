-- ===== src/Task/Executions/Sweep.antt =====
-- A sweep of its own closes the rows that are overdue, and no other (pkg/task/sweeper.go, `sweepOnce`).
use tickraft.Base.{
  ℕ, ◌≡◌, refl, sym, ap, ◌∙◌, ◌+◌, Bool, true, false, not, ◌&&◌, ◌||◌, List, [], ◌∷◌, map, arith,
  Bool-cases, ◌==◌, if◌then◌else◌, inl, inr, length, select, length-select-le, ℤ,
}
use tickraft.Task.Executions.{
  timeout, Execution, Executions, is_running, update_running, affects, announce, close_row,
}
use tickraft.Task.Executions.Sweeper.{
  is_overdue, runs_still, stale_executions, mark_timeout, reap, reap_all, sweep_once,
}
use tickraft.Task.Executions.Scan.{scan_pages-select}

neither : (a b : Bool) → (a || b) ≡ false → (a ≡ false) × (b ≡ false)
neither false b h = (refl, h)
neither true b h = absurd (cc)

module _ (now : ℕ) (timeouts : List (ℕ × ℤ)) where
  -- The rows that the sweep closes, of a list that it has found.
  abbrev has_id : ℕ → List Execution → Bool
  has_id id [] = false
  has_id id (r ∷ rs) = r.id == id || has_id id rs

  abbrev closed_in : (ℕ → Bool) → List Execution → Execution → Execution
  closed_in mark_fails stale r =
      if is_running r.status && (has_id r.id stale && not (mark_fails r.id))
      then close_row timeout now r
      else r

  cons_both : {a b : Execution} {l m : List Execution} → a ≡ b → l ≡ m → a ∷ l ≡ b ∷ m
  cons_both h k = cc

  closed_in-nothing :
      (mark_fails : ℕ → Bool) (rows : List Execution) → map (closed_in mark_fails []) rows ≡ rows
  closed_in-nothing mark_fails [] = refl
  closed_in-nothing mark_fails (r ∷ rs) = cons_both (ground arith) (closed_in-nothing mark_fails rs)

  marked_row :
      (mark_fails : ℕ → Bool) (x : Execution) (stale : List Execution) (r : Execution)
      → mark_fails x.id ≡ false
      → closed_in mark_fails stale
          (if r.id == x.id && is_running r.status then close_row timeout now r else r)
        ≡ closed_in mark_fails (x ∷ stale) r
  unfolding close_row is_running
  marked_row mark_fails x stale r writes = elim (Bool-cases (r.id == x.id)) [
    | inl same ↦
        let at : r.id ≡ x.id = ground arith in
        let here : mark_fails r.id ≡ false = rw at writes in
        let there : x.id == r.id ≡ true = ground arith in
        elim (Bool-cases (is_running r.status)) [
          | inl runs ↦ rw (same, runs, there, here) refl
          | inr ended ↦ rw (same, ended) (rw ended refl)
        ]
    | inr other ↦ let there : x.id == r.id ≡ false = ground arith in rw (other, there) refl
  ]

  failed_row :
      (mark_fails : ℕ → Bool) (x : Execution) (stale : List Execution) (r : Execution)
      → mark_fails x.id ≡ true
      → closed_in mark_fails stale r ≡ closed_in mark_fails (x ∷ stale) r
  failed_row mark_fails x stale r fails = elim (Bool-cases (x.id == r.id)) [
    | inl same ↦
        let at : r.id ≡ x.id = ground arith in
        let here : mark_fails r.id ≡ true = rw at fails in ground arith
    | inr other ↦ rw other refl
  ]

  -- One row that was found, and the others behind it.
  marked-closed_in :
      (mark_fails : ℕ → Bool) (x : Execution) (stale rows : List Execution)
      → mark_fails x.id ≡ false
      → map (closed_in mark_fails stale) (update_running x.id (close_row timeout now) rows)
        ≡ map (closed_in mark_fails (x ∷ stale)) rows
  unfolding update_running close_row is_running
  marked-closed_in mark_fails x stale [] writes = refl
  marked-closed_in mark_fails x stale (r ∷ rs) writes =
      cons_both (marked_row mark_fails x stale r writes)
        (marked-closed_in mark_fails x stale rs writes)

  failed-closed_in :
      (mark_fails : ℕ → Bool) (x : Execution) (stale rows : List Execution)
      → mark_fails x.id ≡ true
      → map (closed_in mark_fails stale) rows ≡ map (closed_in mark_fails (x ∷ stale)) rows
  failed-closed_in mark_fails x stale [] fails = refl
  failed-closed_in mark_fails x stale (r ∷ rs) fails =
      cons_both (failed_row mark_fails x stale r fails)
        (failed-closed_in mark_fails x stale rs fails)

  reap-rows :
      (mark_fails : ℕ → Bool) (x : Execution) (stale : List Execution) (g : Executions)
      → map (closed_in mark_fails stale) (reap now timeouts (mark_fails x.id) x.id g).rows
        ≡ map (closed_in mark_fails (x ∷ stale)) g.rows
  unfolding reap mark_timeout announce
  reap-rows mark_fails x stale g = elim (Bool-cases (mark_fails x.id)) [
    | inl fails ↦ rw fails (failed-closed_in mark_fails x stale g.rows fails)
    | inr writes ↦ elim (Bool-cases (affects x.id g.rows)) [
      | inl hit ↦ rw (writes, hit) (marked-closed_in mark_fails x stale g.rows writes)
      | inr miss ↦ rw (writes, miss) (marked-closed_in mark_fails x stale g.rows writes)
    ]
  ]

  reap_all-rows :
      (mark_fails : ℕ → Bool) (stale : List Execution) (g : Executions)
      → (reap_all now timeouts mark_fails stale g).rows ≡ map (closed_in mark_fails stale) g.rows
  unfolding reap_all
  reap_all-rows mark_fails [] g = sym (closed_in-nothing mark_fails g.rows)
  reap_all-rows mark_fails (x ∷ stale) g =
      reap_all-rows mark_fails stale (reap now timeouts (mark_fails x.id) x.id g)
      ∙ reap-rows mark_fails x stale g

  -- No two rows have the same number, which is the primary key.
  abbrev pub NoneTwice : List Execution → Type 0
  NoneTwice [] = Unit
  NoneTwice (r ∷ rs) = (has_id r.id rs ≡ false) × NoneTwice rs

  -- What a sweep makes of a row.
  abbrev pub swept : (ℕ → Bool) → Execution → Execution
  swept mark_fails r =
      if is_running r.status && (is_overdue now timeouts r && not (mark_fails r.id))
      then close_row timeout now r
      else r

  abbrev found_stale : List Execution → List Execution
  found_stale rows = select (is_overdue now timeouts) (select runs_still rows)

  has_id-found_stale :
      (id : ℕ) (rows : List Execution)
      → has_id id rows ≡ false
      → has_id id (found_stale rows) ≡ false
  has_id-found_stale id [] none_there = refl
  has_id-found_stale id (r ∷ rs) none_there =
      let (other, others) = neither (r.id == id) (has_id id rs) none_there in
      let rest = has_id-found_stale id rs others in
      elim (Bool-cases (is_running r.status)) [
        | inl runs ↦ elim (Bool-cases (is_overdue now timeouts r)) [
          | inl due ↦ rw runs (rw due (rw other rest))
          | inr early ↦ rw runs (rw early rest)
        ]
        | inr ended ↦ rw ended rest
      ]

  -- A row of another number does not matter to the others.
  apart-closed_in :
      (mark_fails : ℕ → Bool) (x : Execution) (stale rows : List Execution)
      → has_id x.id rows ≡ false
      → map (closed_in mark_fails (x ∷ stale)) rows ≡ map (closed_in mark_fails stale) rows
  apart-closed_in mark_fails x stale [] apart = refl
  apart-closed_in mark_fails x stale (r ∷ rs) apart =
      let (other, others) = neither (r.id == x.id) (has_id x.id rs) apart in
      let there : x.id == r.id ≡ false = ground arith in
      cons_both (rw there refl) (apart-closed_in mark_fails x stale rs others)

  closed_in-found_stale :
      (mark_fails : ℕ → Bool) (rows : List Execution)
      → NoneTwice rows
      → map (closed_in mark_fails (found_stale rows)) rows ≡ map (swept mark_fails) rows
  closed_in-found_stale mark_fails [] once = refl
  closed_in-found_stale mark_fails (r ∷ rs) once =
      let rest = closed_in-found_stale mark_fails rs once.1 in
      let gone = has_id-found_stale r.id rs once.0 in
      elim (Bool-cases (is_running r.status)) [
        | inl runs ↦ elim (Bool-cases (is_overdue now timeouts r)) [
          | inl due ↦
              let here : r.id == r.id ≡ true = ground arith in
              let stale : found_stale (r ∷ rs) ≡ r ∷ found_stale rs = rw runs (rw due refl) in
              let head : closed_in mark_fails (r ∷ found_stale rs) r ≡ swept mark_fails r =
                rw here (rw due refl) in
              let tail = apart-closed_in mark_fails r (found_stale rs) rs once.0 ∙ rest in
              ap (λ l. map (closed_in mark_fails l) (r ∷ rs)) stale ∙ cons_both head tail
          | inr early ↦
              let stale : found_stale (r ∷ rs) ≡ found_stale rs = rw runs (rw early refl) in
              let head : closed_in mark_fails (found_stale rs) r ≡ swept mark_fails r =
                rw gone (rw early refl) in
              ap (λ l. map (closed_in mark_fails l) (r ∷ rs)) stale ∙ cons_both head rest
        ]
        | inr ended ↦
            let stale : found_stale (r ∷ rs) ≡ found_stale rs = rw ended refl in
            let head : closed_in mark_fails (found_stale rs) r ≡ swept mark_fails r =
              rw gone (rw ended refl) in
            ap (λ l. map (closed_in mark_fails l) (r ∷ rs)) stale ∙ cons_both head rest
      ]

  -- When no two rows have the same number and the queries do not fail: a sweep of its own ends, and closes, as
  -- timed out at its time, exactly the rows that are running, whose deadline has passed, and whose write does
  -- not fail; every other row stays as it was. This holds for any number of pages.
  pub sweep_once-swept :
      (query_fails mark_fails : ℕ → Bool) (g : Executions)
      → NoneTwice g.rows
      → ((page : ℕ) → query_fails page ≡ false)
      → (sweep_once now timeouts query_fails mark_fails g).rows ≡ map (swept mark_fails) g.rows
  unfolding sweep_once stale_executions
  sweep_once-swept query_fails mark_fails g once reads =
      let few = length-select-le runs_still g.rows in
      let stale =
        scan_pages-select now timeouts query_fails (length g.rows + 1) 0 g.rows reads
          (omega (arith, few)) in
      rw stale (
        reap_all-rows mark_fails (found_stale g.rows) g
        ∙ closed_in-found_stale mark_fails g.rows once)
