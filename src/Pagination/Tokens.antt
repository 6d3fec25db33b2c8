-- ===== src/Pagination/Tokens.antt =====
-- Page after page by the tokens of a composite cursor (pkg/pagination/gorm.go, `Apply`, `NextCursor2ForSize`).
use tickraft.Base.{
  ℕ, zero, suc, ◌≡◌, ◌≤◌, ◌<◌, refl, sym, ap, ◌∙◌, ◌+◌, Bool, true, false, List, [], ◌∷◌, ◌++◌,
  Option, some, none, arith, ltb, inl, inr, Bool-cases, length, length-append, select, ℤ, pos, ok,
  ltb→lt, ltb→ge, lt→ltb,
}
use tickraft.Cron.Text.{Text, text_eq}
use tickraft.Prism.Keys.{text_eq_iff}
use tickraft.Pagination.{
  clamp_size, take, skip, Direction, asc, desc, same_direction, Cursor, PageRequest, is_empty,
  is_positive, is_keyset, Row, all_rows, one_column, Query, run_query, keyset_predicate,
  decoded_predicate, same_columns, encode_by, encode, read_token, decode_cursor, keyset_query,
  apply_keyset, apply, next_cursor, next_cursor_for_size, next_cursor2, next_cursor2_for_size,
  next_token, with_rest, all_pages,
}
use tickraft.Pagination.Keyset.{
  behind, predicate_behind, IsOrdered, select-behind, select-holds-behind, select-holds, take_short,
  IsFull, take-IsFull, clamp_size-pos, concat,
}

same_direction_refl : (d : Direction) → same_direction d d ≡ true
unfolding same_direction
same_direction_refl asc = refl
same_direction_refl desc = refl

text_eq_refl : (t : Text) → text_eq t t ≡ true
text_eq_refl t = (text_eq_iff t t).1 refl

take-skip : (n : ℕ) (ys : List Row) → take n ys ++ skip n ys ≡ ys
take-skip zero ys = refl
take-skip (suc n) [] = refl
take-skip (suc n) (y ∷ ys) = ap (λ l. y ∷ l) (take-skip n ys)

page-IsFull : (n : ℕ) (ys : List Row) → 1 ≤ n → n ≤ length (take n ys) → IsFull n ys
page-IsFull zero ys h full = absurd (omega (arith, h))
page-IsFull (suc n) ys h full = take-IsFull n ys full

left_less : (n : ℕ) (ys : List Row) (p : IsFull n ys) → length (skip n ys) < length ys
left_less n ys p =
    let all = ap length p.parts in
    let parts = length-append p.before (p.last ∷ skip n ys) in omega (arith, all, parts)

concat_one : (rows : List Row) → concat (rows ∷ []) ≡ rows
concat_one [] = refl
concat_one (r ∷ rows) = ap (λ l. r ∷ l) (concat_one rows)

append_assoc : (xs ys zs : List Row) → (xs ++ ys) ++ zs ≡ xs ++ (ys ++ zs)
append_assoc [] ys zs = refl
append_assoc (x ∷ xs) ys zs = ap (λ l. x ∷ l) (append_assoc xs ys zs)

-- The next cursor behind a row, of the first column (true) or of both.
abbrev pub at_row : Bool → Cursor → Row → Cursor
at_row true cur (a, b) = record cur { value = some a }
at_row false cur (a, b) = record cur { value = some a; value2 = some b }

by_first_column :
    (cur : Cursor) (v : ℕ) (w : Option ℕ)
    → is_empty cur.column2 ≡ true
    → keyset_predicate cur v w ≡ one_column cur.direction v
unfolding keyset_predicate
by_first_column cur v none single = refl
by_first_column cur v (some w) single = rw single refl

module _ (marshal : Cursor → Text) (unmarshal : Text → Option Cursor) where
  -- The query of a cursor behind a row.
  keyset_query-at_row :
      (one : Bool) (req : PageRequest) (cur : Cursor) (r : Row)
      → is_empty cur.column2 ≡ one
      → keyset_query marshal unmarshal req cur (at_row one cur r)
        ≡ ok (record {
          predicate = predicate_behind one cur.direction r;
          offset = 0;
          limit = clamp_size req.size;
        })
  unfolding keyset_query same_columns decoded_predicate keyset_predicate
  keyset_query-at_row true req cur (a, b) columns =
      rw (text_eq_refl cur.column, same_direction_refl cur.direction, text_eq_refl cur.column2)
        (rw (by_first_column cur a cur.value2 columns) refl)
  keyset_query-at_row false req cur (a, b) columns =
      rw (text_eq_refl cur.column, same_direction_refl cur.direction, text_eq_refl cur.column2)
        (rw columns refl)

  next_cursor-last :
      (cur : Cursor) (before : List Row) (r : Row)
      → next_cursor marshal unmarshal cur (before ++ r ∷ []) ≡ marshal (at_row true cur r)
  unfolding next_cursor encode encode_by
  next_cursor-last cur [] (a, b) = refl
  next_cursor-last cur (x ∷ []) r = next_cursor-last cur [] r
  next_cursor-last cur (x ∷ y ∷ before) r = next_cursor-last cur (y ∷ before) r

  next_cursor2-last :
      (cur : Cursor) (before : List Row) (r : Row)
      → next_cursor2 marshal unmarshal cur (before ++ r ∷ []) ≡ marshal (at_row false cur r)
  unfolding next_cursor2 encode encode_by
  next_cursor2-last cur [] (a, b) = refl
  next_cursor2-last cur (x ∷ []) r = next_cursor2-last cur [] r
  next_cursor2-last cur (x ∷ y ∷ before) r = next_cursor2-last cur (y ∷ before) r

  -- The token of a full page is that behind its last row, and a short page has none.
  full_token :
      (one : Bool) (cur : Cursor) (size : ℕ) (page before : List Row) (r : Row)
      → ltb (length page) size ≡ false
      → page ≡ before ++ r ∷ []
      → next_token marshal unmarshal one cur page size ≡ marshal (at_row one cur r)
  unfolding next_token next_cursor_for_size next_cursor2_for_size
  full_token true cur size page before r full parts =
      rw full (ap (next_cursor marshal unmarshal cur) parts ∙ next_cursor-last cur before r)
  full_token false cur size page before r full parts =
      rw full (ap (next_cursor2 marshal unmarshal cur) parts ∙ next_cursor2-last cur before r)

  short_token :
      (one : Bool) (cur : Cursor) (size : ℕ) (page : List Row)
      → ltb (length page) size ≡ true
      → next_token marshal unmarshal one cur page size ≡ []
  unfolding next_token next_cursor_for_size next_cursor2_for_size
  short_token true cur size page short = rw short refl
  short_token false cur size page short = rw short refl

-- Of the client, for libraries that read back what they wrote.
module _ (marshal : Cursor → Text) (unmarshal : Text → Option Cursor)
    (reads : (c : Cursor) → unmarshal (marshal c) ≡ some c)
    (writes : (c : Cursor) → is_empty (marshal c) ≡ false) (cur : Cursor)
    (named : is_empty cur.column ≡ false) (size : ℤ) (rows : List Row)
    (ordered : IsOrdered (is_empty cur.column2) cur.direction rows) where
  abbrev pub behind_row : Row → Cursor
  behind_row r = at_row (is_empty cur.column2) cur r

  abbrev pub request : Text → PageRequest
  request token = record { cursor = token; page = pos 0; size = size }

  -- A token for which the database answers with the first rows of a part of the table.
  record Serves (token : Text) (ys : List Row) : Type 0 where
    pub query : Query
    pub applied : apply marshal unmarshal (request token) cur ≡ ok query
    pub answer : run_query query rows ≡ take (clamp_size size) ys

  first-Serves : Serves [] rows
  unfolding apply is_keyset is_empty is_positive apply_keyset run_query
  first-Serves = record {
    query = record { predicate = all_rows; offset = 0; limit = clamp_size size };
    applied = rw named refl;
    answer = rw (select-holds rows) refl;
  }

  decode_some :
      (t : Text) (c : Cursor)
      → is_empty t ≡ false
      → unmarshal t ≡ some c
      → decode_cursor marshal unmarshal t ≡ ok c
  unfolding decode_cursor read_token is_empty
  decode_some [] c h u = absurd (cc)
  decode_some (x ∷ t) c h u = rw u refl

  next-Serves :
      (xs ys : List Row) (r : Row) → rows ≡ xs ++ r ∷ ys → Serves (marshal (behind_row r)) ys
  unfolding apply is_keyset apply_keyset run_query
  next-Serves xs ys r parts =
      let one = is_empty cur.column2 in
      record {
        query = record {
          predicate = predicate_behind one cur.direction r;
          offset = 0;
          limit = clamp_size size;
        };
        applied =
            let c = behind_row r in
            let query =
              keyset_query-at_row marshal unmarshal one (request (marshal c)) cur r refl in
            rw named (rw (writes c) (rw (decode_some (marshal c) c (writes c) (reads c)) query));
        answer =
            let same : select (behind one cur.direction r) rows ≡ ys =
              rw parts (select-behind one cur.direction r xs ys (rw (sym parts) ordered)) in
            ap (take (clamp_size size)) (select-holds-behind one cur.direction r rows ∙ same);
      }

  -- The pages from a token on are the part of the table.
  record Walks (f : ℕ) (token : Text) (ys : List Row) : Type 0 where
    pub pages : List (List Row)
    pub walked : all_pages marshal unmarshal f size cur token rows ≡ ok pages
    pub joined : concat pages ≡ ys

  short-Walks :
      (f : ℕ) (token : Text) (ys : List Row)
      → Serves token ys
      → length (take (clamp_size size) ys) < clamp_size size
      → Walks (suc f) token ys
  unfolding all_pages with_rest is_empty
  short-Walks f token ys s short = record {
    pages = take (clamp_size size) ys ∷ [];
    walked =
        let none_left =
          short_token marshal unmarshal (is_empty cur.column2) cur (clamp_size size)
            (take (clamp_size size) ys) (lt→ltb _ _ short) in
        rw s.applied (rw s.answer (rw none_left refl));
    joined = concat_one (take (clamp_size size) ys) ∙ take_short (clamp_size size) ys short;
  }

  full-Walks :
      (f : ℕ) (token : Text) (ys : List Row) (p : IsFull (clamp_size size) ys)
      → Serves token ys
      → ltb (length (take (clamp_size size) ys)) (clamp_size size) ≡ false
      → Walks f (marshal (behind_row p.last)) (skip (clamp_size size) ys)
      → Walks (suc f) token ys
  unfolding all_pages with_rest
  full-Walks f token ys p s full rest =
      let next =
        full_token marshal unmarshal (is_empty cur.column2) cur (clamp_size size)
          (take (clamp_size size) ys) p.before p.last full p.page in
      record {
        pages = take (clamp_size size) ys ∷ rest.pages;
        walked =
            rw s.applied
              (rw s.answer (rw next (rw (writes (behind_row p.last)) (rw rest.walked refl))));
        joined =
            ap (λ l. take (clamp_size size) ys ++ l) rest.joined ∙ take-skip (clamp_size size) ys;
      }

  walk :
      (f : ℕ) (token : Text) (xs ys : List Row)
      → rows ≡ xs ++ ys
      → Serves token ys
      → length ys < f
      → Walks f token ys
  walk zero token xs ys parts s enough = absurd (omega (arith, enough))
  walk (suc f) token xs ys parts s enough =
      elim (Bool-cases (ltb (length (take (clamp_size size) ys)) (clamp_size size))) [
        | inl short ↦ short-Walks f token ys s (ltb→lt _ _ short)
        | inr full ↦
            let p = page-IsFull (clamp_size size) ys (clamp_size-pos size) (ltb→ge _ _ full) in
            let left = skip (clamp_size size) ys in
            let split : rows ≡ (xs ++ p.before) ++ p.last ∷ left =
              parts ∙ ap (λ l. xs ++ l) p.parts ∙ sym (append_assoc xs p.before (p.last ∷ left)) in
            let less = left_less (clamp_size size) ys p in
            full-Walks f token ys p s full (
              walk f (marshal (behind_row p.last)) ((xs ++ p.before) ++ p.last ∷ []) left
                (split ∙ sym (append_assoc (xs ++ p.before) (p.last ∷ []) left))
                (next-Serves (xs ++ p.before) left p.last split) (omega (arith, less, enough)))
      ]

-- For a cursor of one column or of two, rows in its order with no two alike in its columns, any size that is
-- asked for, and libraries that read back the tokens they write: a client that begins without a token, and goes on with the
-- token of each page until there is none, comes to an end after at most one page more than there are rows,
-- and has seen each row once, in order.
pub all_pages-joined :
    (marshal : Cursor → Text) (unmarshal : Text → Option Cursor) (cur : Cursor) (size : ℤ)
    (rows : List Row)
    → ((c : Cursor) → unmarshal (marshal c) ≡ some c)
    → ((c : Cursor) → is_empty (marshal c) ≡ false)
    → is_empty cur.column ≡ false
    → IsOrdered (is_empty cur.column2) cur.direction rows
    → (pages : List (List Row)) × (all_pages marshal unmarshal (length rows + 1) size cur [] rows
        ≡ ok pages)
      × (concat pages ≡ rows)
all_pages-joined marshal unmarshal cur size rows reads writes named ordered =
    let w =
      walk marshal unmarshal reads writes cur named size rows ordered (length rows + 1) [] [] rows
        refl (first-Serves marshal unmarshal reads writes cur named size rows ordered)
        (omega arith) in
    (w.pages, w.walked, w.joined)
