-- ===== src/Task/Executions/Rows.antt =====
-- What a write does to the rows of executions and to the completions that were published (pkg/task/report.go,
-- sweeper.go, dispatch.go, store.go).
use tickraft.Base.{
  ℕ, ◌≡◌, ◌≤◌, refl, sym, ap, ◌∙◌, Bool, true, false, List, [], ◌∷◌, ◌++◌, Option, some, none,
  arith, Bool-cases, ◌==◌, if◌then◌else◌, inl, inr,
}
use tickraft.Task.Executions.{
  ExecutionStatus, success, failure, timeout, running, unknown, Execution, Executions, is_running,
  row_of, still_running, update_row, update_running, affects, insert_row, announce,
}

-- The completion that a status stands for: none while it runs, a normal one for a success.
abbrev pub completion : ExecutionStatus → List Bool
completion success = true ∷ []
completion failure = false ∷ []
completion timeout = false ∷ []
completion running = []
completion unknown = false ∷ []

abbrev pub completion_of : Option Execution → List Bool
completion_of none = []
completion_of (some r) = completion r.status

-- The completions that were published for a row.
abbrev pub announced_for : ℕ → List (ℕ × Bool) → List Bool
announced_for id [] = []
announced_for id ((j, normal) ∷ l) =
    let rest = announced_for id l in if j == id then normal ∷ rest else rest

abbrev pub if_running : (Execution → Execution) → Option Execution → Option Execution
if_running f none = none
if_running f (some r) = some (if is_running r.status then f r else r)

row_of-update_running :
    (id j : ℕ) (f : Execution → Execution) (rows : List Execution)
    → ((r : Execution) → (f r).id ≡ r.id)
    → row_of j (update_running id f rows)
      ≡ (if id == j then if_running f (row_of j rows) else row_of j rows)
unfolding row_of update_running
row_of-update_running id j f [] keeps = ground arith
row_of-update_running id j f (r ∷ rs) keeps =
    ground (arith, keeps r, row_of-update_running id j f rs keeps)

pub running-completion : (s : ExecutionStatus) → is_running s ≡ true → completion s ≡ []
unfolding is_running
running-completion success h = absurd (cc)
running-completion failure h = absurd (cc)
running-completion timeout h = absurd (cc)
running-completion running h = refl
running-completion unknown h = absurd (cc)

still_running-completion_of : (o : Option Execution) → still_running o ≡ true → completion_of o ≡ []
still_running-completion_of none h = refl
still_running-completion_of (some r) h = running-completion r.status h

if_running-closed :
    (o : Option Execution) (f : Execution → Execution) (normal : Bool)
    → still_running o ≡ true
    → ((r : Execution) → completion (f r).status ≡ normal ∷ [])
    → completion_of (if_running f o) ≡ normal ∷ []
if_running-closed none f normal h closes = absurd (cc)
if_running-closed (some r) f normal h closes = rw h (closes r)

if_running-open :
    (o : Option Execution) (f : Execution → Execution)
    → ((r : Execution) → is_running r.status ≡ true → completion (f r).status ≡ [])
    → completion_of (if_running f o) ≡ completion_of o
if_running-open none f opens = refl
if_running-open (some r) f opens = elim (Bool-cases (is_running r.status)) [
  | inl runs ↦ rw runs (opens r runs ∙ sym (running-completion r.status runs))
  | inr ended ↦ rw ended refl
]

if_running-missed :
    (o : Option Execution) (f : Execution → Execution)
    → still_running o ≡ false
    → if_running f o ≡ o
if_running-missed none f h = refl
if_running-missed (some r) f h = rw h refl

append_nothing : (l : List Bool) → l ++ [] ≡ l
append_nothing [] = refl
append_nothing (b ∷ l) = ap (λ t. b ∷ t) (append_nothing l)

-- No row has a number that is not given out, and for each row is published what its status stands for.
pub record IsAnnounced (g : Executions) : Type 0 where
  pub fresh : (id : ℕ) → g.next_id ≤ id → row_of id g.rows ≡ none
  pub once : (id : ℕ) → announced_for id g.announced ≡ completion_of (row_of id g.rows)

-- A row that has ended stays as it is.
abbrev pub Keeps : Executions → Executions → Type 0
Keeps g h =
    (id : ℕ) (r : Execution)
    → row_of id g.rows ≡ some r
    → is_running r.status ≡ false
    → row_of id h.rows ≡ some r

pub record Follows (g h : Executions) : Type 0 where
  pub sound : IsAnnounced h
  pub kept : Keeps g h

pub same-Follows : (g : Executions) → IsAnnounced g → Follows g g
same-Follows g x = record { sound = x; kept = λ id r h ended. h }

-- The rows, where one that is still running is written.
module _ (id : ℕ) (f : Execution → Execution) (g : Executions) (rows : List Execution)
    (moves : (j : ℕ)
      → row_of j rows ≡ (if id == j then if_running f (row_of j g.rows) else row_of j g.rows))
    (x : IsAnnounced g) where
  updated-fresh : (j : ℕ) → g.next_id ≤ j → row_of j rows ≡ none
  updated-fresh j h = rw (moves j) (rw (x.fresh j h) (ground arith))

  updated-Keeps : Keeps g (record g { rows = rows })
  updated-Keeps j r h ended = rw (moves j) (rw h (ground (arith, ended)))

  -- An update that closes the row, and is announced.
  pub closed-Follows :
      (normal : Bool)
      → affects id g.rows ≡ true
      → ((r : Execution) → completion (f r).status ≡ normal ∷ [])
      → Follows g (announce id normal (record g { rows = rows }))
  unfolding announce affects
  closed-Follows normal hit closes = record {
    sound = record {
      fresh = updated-fresh;
      once = λ j. elim (Bool-cases (id == j)) [
        | inl same ↦
            let at : id ≡ j = ground arith in
            let live = rw at at hit in
            rw (same, moves j)
              (rw (x.once j, still_running-completion_of (row_of j g.rows) live)
                (rw same (sym (if_running-closed (row_of j g.rows) f normal live closes))))
        | inr other ↦ rw (other, moves j) (rw other (x.once j))
      ];
    };
    kept = updated-Keeps;
  }

  -- One that leaves the row running, or affects none.
  pub open-Follows :
      ((r : Execution) → is_running r.status ≡ true → completion (f r).status ≡ [])
      → Follows g (record g { rows = rows })
  open-Follows opens = record {
    sound = record {
      fresh = updated-fresh;
      once = λ j. rw (moves j) (elim (Bool-cases (id == j)) [
        | inl same ↦ rw same (x.once j ∙ sym (if_running-open (row_of j g.rows) f opens))
        | inr other ↦ rw other (x.once j)
      ]);
    };
    kept = updated-Keeps;
  }

  pub missed-Follows : affects id g.rows ≡ false → Follows g (record g { rows = rows })
  unfolding affects
  missed-Follows miss = record {
    sound = record {
      fresh = updated-fresh;
      once = λ j. rw (moves j) (elim (Bool-cases (id == j)) [
        | inl same ↦
            let at : id ≡ j = ground arith in
            rw same (rw (if_running-missed (row_of j g.rows) f (rw at at miss)) (x.once j))
        | inr other ↦ rw other (x.once j)
      ]);
    };
    kept = updated-Keeps;
  }

pub guarded_moves :
    (id : ℕ) (f : Execution → Execution) (rows : List Execution)
    → ((r : Execution) → (f r).id ≡ r.id)
    → (j : ℕ)
    → row_of j (update_running id f rows)
      ≡ (if id == j then if_running f (row_of j rows) else row_of j rows)
guarded_moves id f rows keeps j = row_of-update_running id j f rows keeps

row_of-update_row_other :
    (id j : ℕ) (f : Execution → Execution) (rows : List Execution)
    → ((r : Execution) → (f r).id ≡ r.id)
    → (id == j) ≡ false
    → row_of j (update_row id f rows) ≡ row_of j rows
unfolding row_of update_row
row_of-update_row_other id j f [] keeps other = refl
row_of-update_row_other id j f (r ∷ rs) keeps other =
    ground (arith, keeps r, row_of-update_row_other id j f rs keeps other)

pub row_of-update_row :
    (id j : ℕ) (f : Execution → Execution) (rows : List Execution)
    → ((r : Execution) → (f r).id ≡ r.id)
    → still_running (row_of id rows) ≡ true
    → row_of j (update_row id f rows)
      ≡ (if id == j then if_running f (row_of j rows) else row_of j rows)
unfolding row_of update_row
row_of-update_row id j f [] keeps live = ground arith
row_of-update_row id j f (r ∷ rs) keeps live = elim (Bool-cases (r.id == id)) [
  | inl here ↦
      let runs : is_running r.status ≡ true = rw here at live in
      elim (Bool-cases (id == j)) [
        | inl same ↦ ground (arith, keeps r)
        | inr apart ↦ ground (arith, keeps r, row_of-update_row_other id j f rs keeps apart)
      ]
  | inr other ↦
      let live_in = rw other at live in
      ground (arith, keeps r, row_of-update_row id j f rs keeps live_in)
]

-- A row with a fresh number, and the completions that are published with it.
new_row-Follows :
    (r : Execution) (g : Executions) (told : List Bool) (announced : List (ℕ × Bool))
    → r.id ≡ g.next_id
    → completion r.status ≡ told
    → ((j : ℕ)
        → announced_for j announced ≡ (
            if r.id == j then told ++ announced_for j g.announced else announced_for j g.announced))
    → IsAnnounced g
    → Follows g (record (insert_row r g) { announced = announced })
unfolding insert_row row_of
new_row-Follows r g told announced new status said x = record {
  sound = record {
    fresh = λ j h. let none_there = x.fresh j (omega (arith, h)) in ground (arith, new, h);
    once = λ j. said j ∙ elim (Bool-cases (r.id == j)) [
      | inl same ↦
          let at : r.id ≡ j = ground arith in
          let nothing = x.fresh j (omega (arith, at, new)) in
          rw (same, x.once j, nothing) (append_nothing told ∙ sym status)
      | inr other ↦ rw other (x.once j)
    ];
  };
  kept = λ j q h ended. elim (Bool-cases (r.id == j)) [
    | inl same ↦
        let at : r.id ≡ j = ground arith in
        let nothing = x.fresh j (omega (arith, at, new)) in absurd (cc)
    | inr other ↦ rw other h
  ];
}

pub inserted-Follows :
    (r : Execution) (g : Executions)
    → r.id ≡ g.next_id
    → completion r.status ≡ []
    → IsAnnounced g
    → Follows g (insert_row r g)
unfolding insert_row
inserted-Follows r g new silent x =
    new_row-Follows r g [] g.announced new silent (λ j. ground arith) x

-- A row that is closed from the start.
pub announced_new-Follows :
    (r : Execution) (normal : Bool) (g : Executions)
    → r.id ≡ g.next_id
    → completion r.status ≡ normal ∷ []
    → IsAnnounced g
    → Follows g (announce r.id normal (insert_row r g))
unfolding insert_row announce
announced_new-Follows r normal g new closes x =
    new_row-Follows r g (normal ∷ []) ((r.id, normal) ∷ g.announced) new closes (λ j. refl) x
