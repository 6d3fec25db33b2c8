-- ===== src/Pagination/Examples.antt =====
-- Three rows in pages of two, with a token that is a list of numbers, and the theorems at them.
use tickraft.Base.{
  ℕ, zero, suc, ◌≡◌, refl, ap, ◌+◌, ◌*◌, false, List, [], ◌∷◌, ◌++◌, Option, some, none, arith,
  length, ok, pos,
}
use tickraft.Cron.Text.{Text, codes}
use tickraft.Pagination.{
  take, skip, positive_int64, window, Direction, asc, desc, Cursor, is_empty, Row, all_pages,
}
use tickraft.Pagination.Keyset.{IsOrdered, concat}
use tickraft.Pagination.Tokens.{all_pages-joined}
use tickraft.Pagination.Windows.{first_pages, first_pages-take}

abbrev of_option : Option ℕ → ℕ
of_option none = 0
of_option (some v) = suc v

abbrev to_option : ℕ → Option ℕ
to_option zero = none
to_option (suc v) = some v

abbrev of_direction : Direction → ℕ
of_direction asc = 0
of_direction desc = 1

abbrev to_direction : ℕ → Direction
to_direction zero = asc
to_direction (suc n) = desc

abbrev marshal : Cursor → Text
marshal c =
    of_direction c.direction
    ∷ of_option c.value
    ∷ of_option c.value2
    ∷ length c.column
    ∷ (c.column ++ c.column2)

abbrev unmarshal : Text → Option Cursor
unmarshal (d ∷ v ∷ w ∷ n ∷ s) = some (record {
  column = take n s;
  value = to_option v;
  direction = to_direction d;
  column2 = skip n s;
  value2 = to_option w;
})
unmarshal [] = none
unmarshal (d ∷ []) = none
unmarshal (d ∷ v ∷ []) = none
unmarshal (d ∷ v ∷ w ∷ []) = none

take-append : (s t : Text) → take (length s) (s ++ t) ≡ s
take-append [] t = refl
take-append (c ∷ s) t = ap (λ l. c ∷ l) (take-append s t)

skip-append : (s t : Text) → skip (length s) (s ++ t) ≡ t
skip-append [] t = refl
skip-append (c ∷ s) t = skip-append s t

option_back : (o : Option ℕ) → to_option (of_option o) ≡ o
option_back none = refl
option_back (some v) = refl

direction_back : (d : Direction) → to_direction (of_direction d) ≡ d
direction_back asc = refl
direction_back desc = refl

reads_back : (c : Cursor) → unmarshal (marshal c) ≡ some c
reads_back c =
    rw (take-append c.column c.column2, skip-append c.column c.column2)
      (rw (option_back c.value, option_back c.value2, direction_back c.direction) refl)

not_empty : (c : Cursor) → is_empty (marshal c) ≡ false
unfolding is_empty
not_empty c = refl

abbrev newest_first : Cursor
newest_first = record {
  column = codes "created_at";
  value = none;
  direction = desc;
  column2 = codes "id";
  value2 = none;
}

abbrev three_rows : List Row
three_rows = (9, 4) ∷ (9, 2) ∷ (5, 3) ∷ []

in_order : IsOrdered (is_empty newest_first.column2) newest_first.direction three_rows
unfolding is_empty
in_order = ((refl, (refl, tt)), ((refl, tt), (tt, tt)))

column_named : is_empty newest_first.column ≡ false
unfolding is_empty
column_named = refl

all_pages-joined_example :
    (pages : List (List Row)) × (all_pages marshal unmarshal
        (length three_rows + 1)
        (pos 2)
        newest_first
        []
        three_rows
      ≡ ok pages)
    × (concat pages ≡ three_rows)
all_pages-joined_example =
    all_pages-joined marshal unmarshal newest_first (pos 2) three_rows reads_back not_empty
      column_named in_order

first_pages-take_example : first_pages 2 2 three_rows ≡ take (2 * 2) three_rows
first_pages-take_example = first_pages-take 2 2 three_rows (omega arith)

-- A page far beyond the end is the first one, since the product is below zero.
first_page_again : window 922_337_203_685_477_581 20 50 ≡ (0, 20)
unfolding window positive_int64
first_page_again = refl
