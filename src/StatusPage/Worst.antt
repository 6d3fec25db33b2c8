-- ===== src/StatusPage/Worst.antt =====
-- `Overall`: the worst status of the page's components (pkg/status/aggregate.go).
use tickraft.Base.{ℕ, ◌≤◌, ◌≡◌, ◌⊎◌, inl, inr, refl, sym, ◌∙◌, List, [], ◌∷◌, arith}
use tickraft.StatusPage.{
  Status, status_unknown, ComponentStatus, rank_or_zero, worse, overall_from, overall,
}

-- A component has this status.
abbrev pub HasStatus : Status → List ComponentStatus → Type 0
HasStatus s [] = ⊥
HasStatus s (c ∷ cs) = (c.status ≡ s) ⊎ HasStatus s cs

abbrev pub AllWithin : ℕ → List ComponentStatus → Type 0
AllWithin n [] = Unit {0}
AllWithin n (c ∷ cs) = (rank_or_zero c.status ≤ n) × AllWithin n cs

worse_rank :
    (w s : Status)
    → (rank_or_zero w ≤ rank_or_zero (worse w s)) × (rank_or_zero s ≤ rank_or_zero (worse w s))
unfolding worse
worse_rank w s = ground arith

worse_one_of : (w s : Status) → (worse w s ≡ w) ⊎ (worse w s ≡ s)
unfolding worse
worse_one_of w s = ground arith

overall_from-AllWithin :
    (w : Status) (cs : List ComponentStatus)
    → (rank_or_zero w ≤ rank_or_zero (overall_from w cs))
      × AllWithin (rank_or_zero (overall_from w cs)) cs
unfolding overall_from
overall_from-AllWithin w [] = (omega arith, tt)
overall_from-AllWithin w (c ∷ cs) =
    let (above, rest) = overall_from-AllWithin (worse w c.status) cs in
    (omega (arith, worse_rank w c.status), (omega (arith, worse_rank w c.status), rest))

overall_from_one_of :
    (w : Status) (cs : List ComponentStatus)
    → (overall_from w cs ≡ w) ⊎ HasStatus (overall_from w cs) cs
unfolding overall_from
overall_from_one_of w [] = inl refl
overall_from_one_of w (c ∷ cs) = elim (overall_from_one_of (worse w c.status) cs) [
  | inl same ↦ elim (worse_one_of w c.status) [
    | inl old ↦ inl (same ∙ old)
    | inr new ↦ inr (inl (sym (same ∙ new)))
  ]
  | inr later ↦ inr (inr later)
]

-- The overall status ranks at least as high as that of every component, where unknown and strings
-- outside the vocabulary rank lowest, and it is unknown or the status of some component.
pub overall_worst :
    (cs : List ComponentStatus)
    → AllWithin (rank_or_zero (overall cs)) cs
      × ((overall cs ≡ status_unknown) ⊎ HasStatus (overall cs) cs)
unfolding overall
overall_worst cs =
    ((overall_from-AllWithin status_unknown cs).1, overall_from_one_of status_unknown cs)
