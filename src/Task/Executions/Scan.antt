-- ===== src/Task/Executions/Scan.antt =====
-- The scan of the sweeper finds the running rows that are overdue, whatever the number of pages
-- (pkg/task/sweeper.go, `staleExecutions`).
use tickraft.Base.{
  ℕ, zero, suc, ◌≡◌, ◌≤◌, ◌<◌, refl, sym, ap, ◌∙◌, ◌+◌, ◌-◌, ◌*◌, Bool, true, false, List, [], ◌∷◌,
  ◌++◌, arith, Bool-cases, ltb, leb, ltb→lt, leb→le, inl, inr, length, select, ℤ, ok,
}
use tickraft.Pagination.{take, skip}
use tickraft.Pagination.Windows.{take_all}
use tickraft.Task.Executions.{Execution}
use tickraft.Task.Executions.Sweeper.{
  sweep_page_size, is_overdue, runs_still, query_running, is_last_page, scan_pages,
}

module _ {ℓ} {A : Type ℓ} where
  length-skip : (n : ℕ) (xs : List A) → length (skip n xs) ≡ length xs - n
  length-skip zero xs = omega arith
  length-skip (suc n) [] = omega arith
  length-skip (suc n) (x ∷ xs) = omega (arith, length-skip n xs)

  skip_nothing : (n : ℕ) → skip {A = A} n [] ≡ []
  skip_nothing zero = refl
  skip_nothing (suc n) = refl

  skip-skip : (m n : ℕ) (xs : List A) → skip n (skip m xs) ≡ skip (m + n) xs
  skip-skip zero n xs = let e : 0 + n ≡ n = omega arith in rw e refl
  skip-skip (suc m) n [] = skip_nothing n ∙ sym (skip_nothing (suc m + n))
  skip-skip (suc m) n (x ∷ xs) =
      let e : suc m + n ≡ suc (m + n) = omega arith in rw e (skip-skip m n xs)

  length-take-less : (n : ℕ) (xs : List A) → length (take n xs) < n → length xs < n
  length-take-less zero xs h = absurd (omega (arith, h))
  length-take-less (suc n) [] h = omega arith
  length-take-less (suc n) (x ∷ xs) h = omega (arith, length-take-less n xs (omega (arith, h)))

  select-take-skip :
      (p : A → Bool) (n : ℕ) (xs : List A)
      → select p (take n xs) ++ select p (skip n xs) ≡ select p xs
  select-take-skip p zero xs = refl
  select-take-skip p (suc n) [] = refl
  select-take-skip p (suc n) (x ∷ xs) = elim (Bool-cases (p x)) [
    | inl yes_p ↦ rw yes_p (ap (λ l. x ∷ l) (select-take-skip p n xs))
    | inr no_p ↦ rw no_p (select-take-skip p n xs)
  ]

-- The last page holds the rest, and behind another one there is more.
last_page-rest :
    (p : ℕ) (found : List Execution)
    → is_last_page (suc p) (take sweep_page_size (skip (p * sweep_page_size) found)) (length found)
      ≡ true
    → length (skip (p * sweep_page_size) found) ≤ sweep_page_size
unfolding is_last_page
last_page-rest p found h =
    let ys = skip (p * sweep_page_size) found in
    let left = length-skip (p * sweep_page_size) found in
    elim (Bool-cases (ltb (length (take sweep_page_size ys)) sweep_page_size)) [
      | inl short ↦
          let less = length-take-less sweep_page_size ys (ltb→lt _ _ short) in omega (arith, less)
      | inr full ↦
          let total : leb (length found) (suc p * sweep_page_size) ≡ true = rw full at h in
          let most : length found ≤ suc p * sweep_page_size = leb→le _ _ total in
          omega (arith, left, most)
    ]

not_last-more :
    (p : ℕ) (found page : List Execution)
    → is_last_page (suc p) page (length found) ≡ false
    → suc p * sweep_page_size < length found
unfolding is_last_page
not_last-more p found page h = ground arith

module _ (now : ℕ) (timeouts : List (ℕ × ℤ)) where
  pub scan_pages-select :
      (query_fails : ℕ → Bool) (f p : ℕ) (rows : List Execution)
      → ((page : ℕ) → query_fails page ≡ false)
      → length (skip (p * sweep_page_size) (select runs_still rows)) < f
      → scan_pages now timeouts query_fails f (suc p) rows
        ≡ ok
            (select (is_overdue now timeouts) (skip (p * sweep_page_size) (select runs_still rows)))
  unfolding scan_pages query_running is_last_page
  scan_pages-select query_fails zero p rows reads enough = absurd (omega (arith, enough))
  scan_pages-select query_fails (suc f) p rows reads enough =
      let found = select runs_still rows in
      let ys = skip (p * sweep_page_size) found in
      let page = take sweep_page_size ys in
      let here : suc p - 1 ≡ p = omega arith in
      rw (reads (suc p), here)
        (elim (Bool-cases (is_last_page (suc p) page (length found))) [
          | inl done ↦ rw done (
              ap (λ l. ok (select (is_overdue now timeouts) l))
                (take_all sweep_page_size ys (last_page-rest p found done)))
          | inr more ↦
              let next : suc p + 1 ≡ suc (suc p) = omega arith in
              let total = not_last-more p found page more in
              let left = length-skip (p * sweep_page_size) found in
              let left_behind = length-skip (suc p * sweep_page_size) found in
              let fewer : length (skip (suc p * sweep_page_size) found) < f =
                omega (arith, total, left, left_behind, enough) in
              let behind : skip (suc p * sweep_page_size) found ≡ skip sweep_page_size ys =
                let sum : p * sweep_page_size + sweep_page_size ≡ suc p * sweep_page_size =
                  omega arith in
                sym (skip-skip (p * sweep_page_size) sweep_page_size found ∙ rw sum refl) in
              rw more (
                rw (next, scan_pages-select query_fails f (suc p) rows reads fewer)
                  (rw behind (
                    ap (λ l. ok l)
                      (select-take-skip (is_overdue now timeouts) sweep_page_size ys))))
        ])
