-- ===== src/Pagination/Keyset.antt =====
-- A client that follows the tokens sees each row once (pkg/pagination/gorm.go).
use tickraft.Base.{
  ℕ, zero, suc, ◌≡◌, ◌≤◌, ◌<◌, refl, ap, Bool, true, false, List, [], ◌∷◌, ◌++◌, arith, length,
  select, ltb, ◌==◌, ◌&&◌, ◌||◌, ℤ, pos, negsuc,
}
use tickraft.Pagination.{
  clamp_size, take, skip, Direction, asc, desc, Row, op, all_rows, one_column, two_columns,
  Predicate, holds,
}

-- A row (u, v) comes behind a row (a, b) in the order of the first column (true), or in that of the pairs;
-- or against this order.
abbrev pub behind : Bool → Direction → Row → Row → Bool
behind true asc (a, b) (u, v) = ltb a u
behind true desc (a, b) (u, v) = ltb u a
behind false asc (a, b) (u, v) = ltb a u || a == u && ltb b v
behind false desc (a, b) (u, v) = ltb u a || u == a && ltb v b

abbrev pub predicate_behind : Bool → Direction → Row → Predicate
predicate_behind true d (a, b) = one_column d a
predicate_behind false d (a, b) = two_columns d a b

abbrev pub AllBehind : Bool → Direction → Row → List Row → Type 0
AllBehind one d r [] = Unit
AllBehind one d r (s ∷ rows) = (behind one d r s ≡ true) × AllBehind one d r rows

-- The rows are in the order of the query, and no two have the values of its columns in common.
abbrev pub IsOrdered : Bool → Direction → List Row → Type 0
IsOrdered one d [] = Unit
IsOrdered one d (r ∷ rows) = AllBehind one d r rows × IsOrdered one d rows

behind_irrefl : (one : Bool) (d : Direction) (r : Row) → behind one d r r ≡ false
behind_irrefl true asc (a, b) = ground arith
behind_irrefl true desc (a, b) = ground arith
behind_irrefl false asc (a, b) = ground arith
behind_irrefl false desc (a, b) = ground arith

behind_asym :
    (one : Bool) (d : Direction) (r s : Row) → behind one d r s ≡ true → behind one d s r ≡ false
behind_asym true asc (a, b) (u, v) h = ground arith
behind_asym true desc (a, b) (u, v) h = ground arith
behind_asym false asc (a, b) (u, v) h = ground arith
behind_asym false desc (a, b) (u, v) h = ground arith

select_all :
    (one : Bool) (d : Direction) (r : Row) (rows : List Row)
    → AllBehind one d r rows
    → select (behind one d r) rows ≡ rows
select_all one d r [] h = refl
select_all one d r (s ∷ rows) h = rw h.0 (ap (λ l. s ∷ l) (select_all one d r rows h.1))

AllBehind-member :
    (one : Bool) (d : Direction) (x c : Row) (xs ys : List Row)
    → AllBehind one d x (xs ++ c ∷ ys)
    → behind one d x c ≡ true
AllBehind-member one d x c [] ys h = h.0
AllBehind-member one d x c (y ∷ xs) ys h = AllBehind-member one d x c xs ys h.1

-- Behind a row of the table are the rows that follow it.
pub select-behind :
    (one : Bool) (d : Direction) (c : Row) (xs ys : List Row)
    → IsOrdered one d (xs ++ c ∷ ys)
    → select (behind one d c) (xs ++ c ∷ ys) ≡ ys
select-behind one d c [] ys h = rw (behind_irrefl one d c) (select_all one d c ys h.0)
select-behind one d c (x ∷ xs) ys h =
    rw (behind_asym one d x c (AllBehind-member one d x c xs ys h.0))
      (select-behind one d c xs ys h.1)

-- The predicate of a query keeps the rows behind its values.
holds-behind :
    (one : Bool) (d : Direction) (r s : Row) → holds (predicate_behind one d r) s ≡ behind one d r s
unfolding holds op
holds-behind true asc (a, b) (u, v) = refl
holds-behind true desc (a, b) (u, v) = refl
holds-behind false asc (a, b) (u, v) = ground arith
holds-behind false desc (a, b) (u, v) = refl

pub select-holds-behind :
    (one : Bool) (d : Direction) (r : Row) (rows : List Row)
    → select (holds (predicate_behind one d r)) rows ≡ select (behind one d r) rows
select-holds-behind one d r [] = refl
select-holds-behind one d r (s ∷ rows) =
    rw (holds-behind one d r s) (rw (select-holds-behind one d r rows) refl)

pub select-holds : (rows : List Row) → select (holds all_rows) rows ≡ rows
unfolding holds
select-holds [] = refl
select-holds (r ∷ rows) = ap (λ l. r ∷ l) (select-holds rows)

pub take_short : (n : ℕ) (ys : List Row) → length (take n ys) < n → take n ys ≡ ys
take_short zero ys h = absurd (omega (arith, h))
take_short (suc n) [] h = refl
take_short (suc n) (y ∷ ys) h = ap (λ l. y ∷ l) (take_short n ys (omega (arith, h)))

pub record IsFull (n : ℕ) (ys : List Row) : Type 0 where
  pub before : List Row
  pub last : Row
  pub page : take n ys ≡ before ++ last ∷ []
  pub parts : ys ≡ before ++ last ∷ skip n ys

pub take-IsFull : (n : ℕ) (ys : List Row) → suc n ≤ length (take (suc n) ys) → IsFull (suc n) ys
take-IsFull n [] h = absurd (omega (arith, h))
take-IsFull zero (y ∷ ys) h = record { before = []; last = y; page = refl; parts = refl }
take-IsFull (suc n) (y ∷ ys) h =
    let rest = take-IsFull n ys (omega (arith, h)) in
    record {
      before = y ∷ rest.before;
      last = rest.last;
      page = ap (λ l. y ∷ l) rest.page;
      parts = ap (λ l. y ∷ l) rest.parts;
    }

pub length-skip : (n : ℕ) (ys : List Row) → 1 ≤ length ys → length (skip (suc n) ys) < length ys
length-skip n [] h = absurd (omega (arith, h))
length-skip zero (y ∷ ys) h = omega arith
length-skip (suc n) (y ∷ []) h = omega arith
length-skip (suc n) (y ∷ z ∷ ys) h =
    let rest = length-skip n (z ∷ ys) (omega arith) in omega (arith, rest)

pub clamp_size-pos : (size : ℤ) → 1 ≤ clamp_size size
unfolding clamp_size
clamp_size-pos (pos n) = ground arith
clamp_size-pos (negsuc n) = omega arith

abbrev pub concat : List (List Row) → List Row
concat [] = []
concat (p ∷ ps) = p ++ concat ps
