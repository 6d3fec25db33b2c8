-- ===== src/Pagination.antt =====
-- Pages of a list and of a table: pkg/pagination/cursor.go, paging.go and gorm.go. A value of a column is a
-- number, and the empty text none. The token of a cursor is made by `marshal` and read by `unmarshal`, the
-- libraries of JSON and base64. A query is what it asks of the database: `run_query` answers it from the
-- rows in the order of the query, as ORDER BY, WHERE, OFFSET and LIMIT do.
pub mod Windows
pub mod Keyset
pub mod Tokens
mod Examples
use tickraft.Base.{
  ℕ, zero, suc, ◌+◌, ◌-◌, ◌*◌, ◌%◌, ◌^◌, Bool, true, false, not, ◌&&◌, ◌||◌, List, [], ◌∷◌, Option,
  some, none, ltb, leb, ◌==◌, if◌then◌else◌, min, max, length, select, ℤ, pos, negsuc, Outcome, ok,
  failed, ◌>>=◌,
}
use tickraft.Cron.Text.{Text, text_eq}

abbrev pub max_size : ℕ
max_size = 100

abbrev pub default_size : ℕ
default_size = 20

unfoldable pub clamp_size : ℤ → ℕ
clamp_size (negsuc n) = default_size
clamp_size (pos n) = if n == 0 then default_size else min n max_size

-- `Clamp`
unfoldable pub clamp_page : ℤ → ℕ
clamp_page (negsuc n) = 1
clamp_page (pos n) = max n 1

-- What a product is as an int64, when it is not negative, and 0 when it is.
unfoldable pub positive_int64 : ℕ → ℕ
positive_int64 n = if ltb (n % 2 ^ 64) (2 ^ 63) then n % 2 ^ 64 else 0

-- `Window`, for a page of 1 at least.
unfoldable pub window : ℕ → ℕ → ℕ → ℕ × ℕ
window page size total =
    let start = min (positive_int64 ((page - 1) * size)) total in (start, min (start + size) total)

abbrev pub take {ℓ} : {A : Type ℓ} → ℕ → List A → List A
take zero xs = []
take (suc n) [] = []
take (suc n) (x ∷ xs) = x ∷ take n xs

abbrev pub skip {ℓ} : {A : Type ℓ} → ℕ → List A → List A
skip zero xs = xs
skip (suc n) [] = []
skip (suc n) (x ∷ xs) = skip n xs

pub data Direction : Type 0 where
  asc desc : Direction

unfoldable pub same_direction : Direction → Direction → Bool
same_direction asc asc = true
same_direction asc desc = false
same_direction desc asc = false
same_direction desc desc = true

pub record Cursor : Type 0 where
  pub column : Text
  pub value : Option ℕ
  pub direction : Direction
  pub column2 : Text
  pub value2 : Option ℕ

pub data PageError : Type 0 where
  column_required bad_token invalid_cursor out_of_fuel : PageError

pub record PageRequest : Type 0 where
  pub cursor : Text
  pub page : ℤ
  pub size : ℤ

unfoldable pub is_empty : Text → Bool
is_empty [] = true
is_empty (c ∷ s) = false

unfoldable pub is_positive : ℤ → Bool
is_positive (negsuc n) = false
is_positive (pos n) = not (n == 0)

unfoldable pub is_keyset : PageRequest → Bool
is_keyset r = not (is_empty r.cursor) || not (is_positive r.page)

-- The two values of a row in the ordered columns.
abbrev pub Row : Type 0
Row = ℕ × ℕ

-- The operator of the predicate: `>` or `<`.
unfoldable pub op : Direction → ℕ → ℕ → Bool
op asc a v = ltb v a
op desc a v = ltb a v

-- The predicate of a query: none, the comparison of one column, or that of two.
pub data Predicate : Type 0 where
  all_rows : Predicate
  one_column : Direction → ℕ → Predicate
  two_columns : Direction → ℕ → ℕ → Predicate

unfoldable pub holds : Predicate → Row → Bool
holds all_rows r = true
holds (one_column d v) (a, b) = op d a v
holds (two_columns d v w) (a, b) = op d a v || a == v && op d b w

pub record Query : Type 0 where
  pub predicate : Predicate
  pub offset : ℕ
  pub limit : ℕ

unfoldable pub run_query : Query → List Row → List Row
run_query q rows = take q.limit (skip q.offset (select (holds q.predicate) rows))

-- `applyKeysetPredicate`, for a cursor with a first value.
unfoldable pub keyset_predicate : Cursor → ℕ → Option ℕ → Predicate
keyset_predicate cur v none = one_column cur.direction v
keyset_predicate cur v (some w) =
    if is_empty cur.column2 then one_column cur.direction v else two_columns cur.direction v w

unfoldable pub decoded_predicate : Cursor → Cursor → Predicate
decoded_predicate cur decoded = elim decoded.value [
  | none ↦ all_rows
  | some v ↦ keyset_predicate cur v decoded.value2
]

unfoldable pub same_columns : Cursor → Cursor → Bool
same_columns a b =
    text_eq a.column b.column
    && same_direction a.direction b.direction
    && text_eq a.column2 b.column2

abbrev pub empty_cursor : Cursor
empty_cursor = record { column = []; value = none; direction = asc; column2 = []; value2 = none }

module _ (marshal : Cursor → Text) (unmarshal : Text → Option Cursor) where
  -- `Encode`
  unfoldable pub encode_by : Option ℕ → Option ℕ → Cursor → Text
  encode_by none none c = []
  encode_by none (some w) c = marshal c
  encode_by (some v) w c = marshal c

  unfoldable pub encode : Cursor → Text
  encode c = encode_by c.value c.value2 c

  unfoldable pub read_token : Option Cursor → Outcome PageError Cursor
  read_token none = failed bad_token
  read_token (some c) = ok c

  unfoldable pub decode_cursor : Text → Outcome PageError Cursor
  decode_cursor [] = ok empty_cursor
  decode_cursor (c ∷ s) = read_token (unmarshal (c ∷ s))

  unfoldable pub keyset_query : PageRequest → Cursor → Cursor → Outcome PageError Query
  keyset_query req cur decoded =
      if same_columns decoded cur
      then ok (record {
        predicate = decoded_predicate cur decoded;
        offset = 0;
        limit = clamp_size req.size;
      })
      else failed invalid_cursor

  -- `Apply` in the keyset mode.
  unfoldable pub apply_keyset : PageRequest → Cursor → Outcome PageError Query
  apply_keyset req cur =
      if is_empty req.cursor
      then ok (record { predicate = all_rows; offset = 0; limit = clamp_size req.size })
      else decode_cursor req.cursor >>= keyset_query req cur

  unfoldable pub apply : PageRequest → Cursor → Outcome PageError Query
  apply req cur =
      if is_empty cur.column
      then failed column_required
      else if is_keyset req
      then apply_keyset req cur
      else ok (record {
        predicate = all_rows;
        offset = (clamp_page req.page - 1) * clamp_size req.size;
        limit = clamp_size req.size;
      })

  -- `NextCursor`, with the first column of the last row of the page.
  unfoldable pub next_cursor : Cursor → List Row → Text
  next_cursor cur [] = []
  next_cursor cur ((a, b) ∷ []) = encode (record cur { value = some a })
  next_cursor cur (r ∷ s ∷ rows) = next_cursor cur (s ∷ rows)

  unfoldable pub next_cursor_for_size : Cursor → List Row → ℕ → Text
  next_cursor_for_size cur rows size = if ltb (length rows) size then [] else next_cursor cur rows

  -- `NextCursor2`, with both columns of the last row of the page.
  unfoldable pub next_cursor2 : Cursor → List Row → Text
  next_cursor2 cur [] = []
  next_cursor2 cur ((a, b) ∷ []) = encode (record cur { value = some a; value2 = some b })
  next_cursor2 cur (r ∷ s ∷ rows) = next_cursor2 cur (s ∷ rows)

  unfoldable pub next_cursor2_for_size : Cursor → List Row → ℕ → Text
  next_cursor2_for_size cur rows size = if ltb (length rows) size then [] else next_cursor2 cur rows

  -- What the caller asks for the next token, by its cursor: `NextCursor2ForSize` is for one of two columns.
  unfoldable pub next_token : Bool → Cursor → List Row → ℕ → Text
  next_token true cur rows size = next_cursor_for_size cur rows size
  next_token false cur rows size = next_cursor2_for_size cur rows size

  unfoldable pub with_rest :
      List Row → Text → Outcome PageError (List (List Row)) → Outcome PageError (List (List Row))
  with_rest page next rest =
      if is_empty next then ok (page ∷ []) else (do pages ← rest; ok (page ∷ pages))

  -- A client that asks for page after page, until the token is empty, on fuel.
  unfoldable pub all_pages : ℕ → ℤ → Cursor → Text → List Row → Outcome PageError (List (List Row))
  all_pages zero size cur token rows = failed out_of_fuel
  all_pages (suc f) size cur token rows =
      apply (record { cursor = token; page = pos 0; size = size }) cur >>= λ q.
      let page = run_query q rows in
      let next = next_token (is_empty cur.column2) cur page (clamp_size size) in
      with_rest page next (all_pages f size cur next rows)
