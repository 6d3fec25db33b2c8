-- ===== src/Pagination/Windows.antt =====
-- The windows of successive pages make up the list (pkg/pagination/paging.go, `Window`).
use tickraft.Base.{
  ℕ, zero, suc, ◌≡◌, ◌≤◌, ◌<◌, refl, sym, ap, ◌∙◌, ◌+◌, ◌-◌, ◌*◌, ◌^◌, List, [], ◌∷◌, ◌++◌, arith,
  ltb, inl, inr, Bool-cases, length, min,
}
use tickraft.Pagination.{take, skip, positive_int64, window}

module _ {ℓ} {A : Type ℓ} where
  -- `xs[start:end]`
  abbrev pub slice : ℕ × ℕ → List A → List A
  slice (start, end) xs = take (end - start) (skip start xs)

  -- The windows of the pages 1 to n.
  unfoldable pub first_pages : ℕ → ℕ → List A → List A
  first_pages zero size xs = []
  first_pages (suc n) size xs = first_pages n size xs ++ slice (window (n + 1) size (length xs)) xs

  pub take_all : (n : ℕ) (xs : List A) → length xs ≤ n → take n xs ≡ xs
  take_all zero [] h = refl
  take_all zero (x ∷ xs) h = absurd (omega (arith, h))
  take_all (suc n) [] h = refl
  take_all (suc n) (x ∷ xs) h = ap (λ l. x ∷ l) (take_all n xs (omega (arith, h)))

  -- A window that starts in the list adds what it holds to what is before it.
  take-window :
      (m n : ℕ) (xs : List A)
      → m ≤ length xs
      → take m xs ++ take (min (m + n) (length xs) - m) (skip m xs) ≡ take (m + n) xs
  take-window zero n xs h = elim (Bool-cases (ltb n (length xs))) [
    | inl inside ↦ let all : min (0 + n) (length xs) - 0 ≡ 0 + n = ground arith in rw all refl
    | inr over ↦
        let all : min (0 + n) (length xs) - 0 ≡ length xs = ground arith in
        rw all (take_all (length xs) xs (omega arith) ∙ sym (take_all (0 + n) xs (ground arith)))
  ]
  take-window (suc m) n [] h = absurd (omega (arith, h))
  take-window (suc m) n (x ∷ xs) h =
      let rest = take-window m n xs (omega (arith, h)) in
      let sum : suc m + n ≡ suc (m + n) = omega arith in
      let left : min (suc m + n) (suc (length xs)) - suc m ≡ min (m + n) (length xs) - m =
        ground arith in
      rw left (rw sum (ap (λ l. x ∷ l) rest))

  append_nothing : (xs : List A) → xs ++ [] ≡ xs
  append_nothing [] = refl
  append_nothing (x ∷ xs) = ap (λ l. x ∷ l) (append_nothing xs)

small_product : (n : ℕ) → n < 2 ^ 63 → positive_int64 n ≡ n
unfolding positive_int64
small_product n h = ground arith

fewer_small : (n size : ℕ) → suc n * size < 2 ^ 63 → n * size < 2 ^ 63
fewer_small n size h =
    let step : suc n * size ≡ n * size + size = omega arith in omega (arith, step, h)

-- With a size and a number of pages whose product is below 2 ^ 63: the windows of the pages 1 to n, one behind
-- the other, are the first n times size elements of the list, all of them when there are not so many.
pub first_pages-take {ℓ} :
    {A : Type ℓ} (n size : ℕ) (xs : List A)
    → n * size < 2 ^ 63
    → first_pages n size xs ≡ take (n * size) xs
unfolding first_pages window
first_pages-take zero size xs h = let none_yet : 0 * size ≡ 0 = omega arith in rw none_yet refl
first_pages-take (suc n) size xs h =
    let before = first_pages-take n size xs (fewer_small n size h) in
    let start : positive_int64 ((n + 1 - 1) * size) ≡ n * size =
      let same : (n + 1 - 1) * size ≡ n * size = ap (λ k. k * size) (omega arith) in
      ap positive_int64 same ∙ small_product (n * size) (fewer_small n size h) in
    rw before (
      rw start (elim (Bool-cases (ltb (n * size) (length xs))) [
        | inl inside ↦
            let first : min (n * size) (length xs) ≡ n * size = ground arith in
            let next : suc n * size ≡ n * size + size = omega arith in
            rw first (rw next (take-window (n * size) size xs (ground arith)))
        | inr over ↦
            let first : min (n * size) (length xs) ≡ length xs = ground arith in
            let nothing : min (length xs + size) (length xs) - length xs ≡ 0 = ground arith in
            let next : suc n * size ≡ n * size + size = omega arith in
            rw first (
              rw nothing (
                append_nothing (take (n * size) xs)
                ∙ take_all (n * size) xs (ground arith)
                ∙ sym (take_all (suc n * size) xs (ground arith))))
      ]))
