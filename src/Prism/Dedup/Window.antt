-- ===== src/Prism/Dedup/Window.antt =====
-- What pkg/prism/governance/dedup.go lets pass: an alert is dropped exactly when one with its fingerprint
-- has passed within the window, whatever the sweeps take out of the map.
use mathlib.Core.Path.{subst}
use tickraft.Base.{
  ℕ, ◌≡◌, ◌≤◌, refl, sym, ◌∙◌, ap, ◌-◌, Bool, false, ◌&&◌, ◌||◌, List, [], ◌∷◌, Option, some, none,
  arith, inl, inr, Bool-cases, ltb, leb, ◌==◌, if◌then◌else◌, lookup, insert, Distinct,
  lookup-insert, insert-Distinct,
}
use tickraft.Cron.Text.{Text, text_eq}
use tickraft.Prism.{Event, fingerprint}
use tickraft.Prism.Keys.{text_key, text_eq_iff}
use tickraft.Prism.Dedup.{
  Decision, decision_pass, decision_suppress, Dedup, default_dedup_window, new_dedup, sweep,
  needs_sweep, maybe_sweep, is_recent, process_key, process,
}

-- The alerts in their order, with the times at which they come, through one guard.
abbrev pub decisions : Dedup → List (ℕ × Option Event) → List Decision
decisions d [] = []
decisions d ((now, e) ∷ es) = (process d now e).1 ∷ decisions (process d now e).0 es

-- The alerts that have passed, by fingerprint and time: is there one of this fingerprint within the window?
abbrev pub passed_lately : ℕ → ℕ → Text → List (Text × ℕ) → Bool
passed_lately now window fp [] = false
passed_lately now window fp ((other, last) ∷ passes) =
    text_eq other fp && ltb (now - last) window || passed_lately now window fp passes

-- The decisions by the rule alone, from the list of all passes.
abbrev pub by_rule : ℕ → List (Text × ℕ) → List (ℕ × Option Event) → List Decision
by_rule window passes [] = []
by_rule window passes ((now, none) ∷ es) = decision_pass ∷ by_rule window passes es
by_rule window passes ((now, some e) ∷ es) =
    let suppressed = by_rule window passes es in
    let passed = by_rule window ((fingerprint e, now) ∷ passes) es in
    if passed_lately now window (fingerprint e) passes
    then decision_suppress ∷ suppressed
    else decision_pass ∷ passed

-- Times that do not go back, from a time on.
abbrev pub InOrder : ℕ → List (ℕ × Option Event) → Type 0
InOrder t [] = Unit
InOrder t ((now, e) ∷ es) = (t ≤ now) × InOrder now es

-- The map says of every fingerprint the same as the list of all passes, from `now` on.
record Tracks (now : ℕ) (d : Dedup) (passes : List (Text × ℕ)) : Type 0 where
  distinct : Distinct d.seen
  same :
      (later : ℕ) (fp : Text)
      → now ≤ later
      → is_recent later d.window (lookup fp d.seen) ≡ passed_lately later d.window fp passes

is_recent-later :
    (now later window : ℕ) (o : Option ℕ)
    → now ≤ later
    → is_recent now window o ≡ false
    → is_recent later window o ≡ false
is_recent-later now later window none order h = refl
is_recent-later now later window (some last) order h = ground arith

lookup-sweep-none :
    (now window : ℕ) (fp : Text) (seen : List (Text × ℕ))
    → lookup fp seen ≡ none
    → lookup fp (sweep now window seen) ≡ none
unfolding lookup sweep
lookup-sweep-none now window fp [] h = refl
lookup-sweep-none now window fp ((other, last) ∷ seen) h =
    ground (arith, lookup-sweep-none now window fp seen)

sweep-Distinct :
    (now window : ℕ) (seen : List (Text × ℕ)) → Distinct seen → Distinct (sweep now window seen)
unfolding sweep
sweep-Distinct now window [] d = tt
sweep-Distinct now window ((fp, last) ∷ seen) d =
    ground (arith, lookup-sweep-none now window fp seen d.0, sweep-Distinct now window seen d.1)

is_recent-sweep :
    (now later window : ℕ) (fp : Text) (seen : List (Text × ℕ))
    → now ≤ later
    → Distinct seen
    → is_recent later window (lookup fp (sweep now window seen))
      ≡ is_recent later window (lookup fp seen)
unfolding lookup sweep
is_recent-sweep now later window fp [] order d = refl
is_recent-sweep now later window fp ((other, last) ∷ seen) order d =
    elim (Bool-cases (text_eq other fp)) [
      | inr differ ↦ ground (arith, is_recent-sweep now later window fp seen order d.1)
      | inl here ↦
          let same : other ≡ fp = (text_eq_iff other fp).0 here in
          let absent : lookup fp seen ≡ none = rw same at d.0 in
          let still_absent = lookup-sweep-none now window fp seen absent in
          elim (Bool-cases (leb window (now - last))) [
            | inl old ↦
                let past : ltb (later - last) window ≡ false = ground arith in
                rw old (rw still_absent (rw here (sym past)))
            | inr young ↦ rw young (rw here refl)
          ]
    ]

Tracks-later :
    (now later : ℕ) (d : Dedup) (passes : List (Text × ℕ))
    → now ≤ later
    → Tracks now d passes
    → Tracks later d passes
Tracks-later now later d passes order t = record {
  distinct = t.distinct;
  same = λ time fp h. t.same time fp (omega (arith, order, h));
}

maybe_sweep-Tracks :
    (now : ℕ) (d : Dedup) (passes : List (Text × ℕ))
    → Tracks now d passes
    → Tracks now (maybe_sweep d now) passes
unfolding maybe_sweep
maybe_sweep-Tracks now d passes t = elim (Bool-cases (needs_sweep now d.window d.last_sweep)) [
  | inr idle ↦ rw idle t
  | inl sweeps ↦ rw sweeps (record {
    distinct = sweep-Distinct now d.window d.seen t.distinct;
    same = λ later fp order.
        is_recent-sweep now later d.window fp d.seen order t.distinct ∙ t.same later fp order;
  })
]

window-maybe_sweep : (now : ℕ) (d : Dedup) → (maybe_sweep d now).window ≡ d.window
unfolding maybe_sweep
window-maybe_sweep now d = elim (Bool-cases (needs_sweep now d.window d.last_sweep)) [
  | inr idle ↦ rw idle refl
  | inl sweeps ↦ rw sweeps refl
]

insert-Tracks :
    (now : ℕ) (d : Dedup) (passes : List (Text × ℕ)) (fp : Text)
    → is_recent now d.window (lookup fp d.seen) ≡ false
    → Tracks now d passes
    → Tracks now (record d { seen = insert fp now d.seen }) ((fp, now) ∷ passes)
insert-Tracks now d passes fp stale t = record {
  distinct = insert-Distinct fp now d.seen t.distinct;
  same = λ later other order.
      rw (lookup-insert fp other now d.seen) (elim (Bool-cases (text_eq fp other)) [
        | inr differ ↦ rw differ (t.same later other order)
        | inl here ↦
            let key : fp ≡ other = (text_eq_iff fp other).0 here in
            let gone : passed_lately later d.window other passes ≡ false = rw key at (
              sym (t.same later fp order)
              ∙ is_recent-later now later d.window (lookup fp d.seen) order stale) in
            rw here (rw gone (ground arith))
      ]);
}

key_decisions :
    (d : Dedup) (now : ℕ) (e : Event) (passes : List (Text × ℕ)) (es : List (ℕ × Option Event))
    → Tracks now d passes
    → ((d' : Dedup) (passes' : List (Text × ℕ))
        → Tracks now d' passes'
        → decisions d' es ≡ by_rule d'.window passes' es)
    → (process_key d now (fingerprint e)).1 ∷ decisions (process_key d now (fingerprint e)).0 es
      ≡ by_rule d.window passes ((now, some e) ∷ es)
unfolding process_key
key_decisions d now e passes es t rest =
    let fp = fingerprint e in
    let rule = t.same now fp (omega arith) in
    elim (Bool-cases (is_recent now d.window (lookup fp d.seen))) [
      | inl recent ↦
          rw (recent, sym rule ∙ recent) (ap (λ ds. decision_suppress ∷ ds) (rest d passes t))
      | inr stale ↦
          rw (stale, sym rule ∙ stale)
            (ap (λ ds. decision_pass ∷ ds)
              (rest (record d { seen = insert fp now d.seen }) ((fp, now) ∷ passes)
                (insert-Tracks now d passes fp stale t)))
    ]

decisions-Tracks :
    (t : ℕ) (d : Dedup) (passes : List (Text × ℕ)) (es : List (ℕ × Option Event))
    → InOrder t es
    → Tracks t d passes
    → decisions d es ≡ by_rule d.window passes es
unfolding process
decisions-Tracks t d passes [] order tracks = refl
decisions-Tracks t d passes ((now, none) ∷ es) order tracks =
    ap (λ ds. decision_pass ∷ ds)
      (decisions-Tracks now d passes es order.1 (Tracks-later t now d passes order.0 tracks))
decisions-Tracks t d passes ((now, some e) ∷ es) order tracks =
    let s = maybe_sweep d now in
    let swept = maybe_sweep-Tracks now d passes (Tracks-later t now d passes order.0 tracks) in
    subst (λ w. decisions d ((now, some e) ∷ es) ≡ by_rule w passes ((now, some e) ∷ es))
      (window-maybe_sweep now d)
      (key_decisions s now e passes es swept
        (λ d' passes' tr. decisions-Tracks now d' passes' es order.1 tr))

-- A new guard drops of a list of alerts, which come at times that do not go back, exactly those of whose
-- fingerprint another has passed less than the window before; the sweeps of its map make no difference.
pub decisions-by_rule :
    (window : ℕ) (es : List (ℕ × Option Event))
    → InOrder 0 es
    → decisions (new_dedup window) es
      ≡ by_rule (if window == 0 then default_dedup_window else window) [] es
unfolding new_dedup lookup
decisions-by_rule window es order =
    decisions-Tracks 0 (new_dedup window) [] es order
      (record { distinct = tt; same = λ later fp h. refl })
