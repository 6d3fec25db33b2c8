-- ===== src/Cron/Spec/Letters.antt =====
-- The letters that the parser refuses in every field (pkg/cron/parser.go, the loop of `parseSpecFields`):
-- it refuses L, W and # before it reads the names of the months and the weekdays.
use tickraft.Base.{ok, >>=-eq-ok, ℕ, ◌≡◌, refl, sym, true, false, List, [], ◌∷◌, ◌+◌}
use tickraft.Cron.Text.{Text, codes, contains_any, to_upper}
use tickraft.Cron.Spec.{
  Parser, default_parser, has_place, SpecSchedule, Progress, field_at, pick_token, field_count,
  count_places, parse_place, parse_places, initial_progress, finish, parse_spec_fields,
  field_places, is_optional,
}
use tickraft.Cron.Spec.Parsed.{parse_place-Round}

unfoldable pub IsClean : Text → Type 0
IsClean t = contains_any (to_upper t) (codes "LW#") ≡ false

-- A place that the parser always reads takes the next field.
taken :
    (p : Parser) (texts : List Text) (i : ℕ) (s s' : Progress) (t : Text) (n : ℕ)
    → parse_place p texts i s ≡ ok s'
    → has_place p i ≡ true
    → s.field_index ≡ n
    → field_at texts n ≡ ok t
    → IsClean t × (s'.field_index ≡ n + 1)
unfolding IsClean pick_token
taken p texts i s s' t n h always at_n found =
    let r = parse_place-Round p texts i s s' h in
    let found_here : pick_token p i texts s.field_index s.extra_fields
        ≡ ok (t, n + 1, s.extra_fields) =
      rw always (rw at_n (rw found refl)) in
    let picked = r.picked in let token : r.token ≡ t = cc in (rw (sym token) r.clean, cc)

-- A default expression of five fields that parses has none of L, W and # in any field, in upper case
-- or in lower case.
pub parse_spec_fields-letters :
    (mi h d mo w : Text) (loc : ℕ) (s : SpecSchedule)
    → parse_spec_fields default_parser (mi ∷ h ∷ d ∷ mo ∷ w ∷ []) loc ≡ ok s
    → IsClean mi × IsClean h × IsClean d × IsClean mo × IsClean w
unfolding parse_spec_fields parse_places pick_token field_count count_places has_place is_optional
    field_at
parse_spec_fields-letters mi h d mo w loc s eq =
    let texts = mi ∷ h ∷ d ∷ mo ∷ w ∷ [] in
    let p = default_parser in
    let (s6, rounds, done) =
      >>=-eq-ok (parse_places p texts field_places (initial_progress p texts loc)) finish eq in
    let (s1, h1, k1) = >>=-eq-ok (parse_place p texts 0 (initial_progress p texts loc)) _ rounds in
    let (s2, h2, k2) = >>=-eq-ok (parse_place p texts 1 s1) _ k1 in
    let (s3, h3, k3) = >>=-eq-ok (parse_place p texts 2 s2) _ k2 in
    let (s4, h4, k4) = >>=-eq-ok (parse_place p texts 3 s3) _ k3 in
    let (s5, h5, k5) = >>=-eq-ok (parse_place p texts 4 s4) _ k4 in
    let (s6', h6, k6) = >>=-eq-ok (parse_place p texts 5 s5) _ k5 in
    let first = (parse_place-Round p texts 0 (initial_progress p texts loc) s1 h1).picked in
    let zero_index : s1.field_index ≡ 0 = cc in
    let t2 = taken p texts 1 s1 s2 mi 0 h2 refl zero_index refl in
    let t3 = taken p texts 2 s2 s3 h 1 h3 refl t2.1 refl in
    let t4 = taken p texts 3 s3 s4 d 2 h4 refl t3.1 refl in
    let t5 = taken p texts 4 s4 s5 mo 3 h5 refl t4.1 refl in
    let t6 = taken p texts 5 s5 s6' w 4 h6 refl t5.1 refl in (t2.0, t3.0, t4.0, t5.0, t6.0)
