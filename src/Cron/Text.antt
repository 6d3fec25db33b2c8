-- ===== src/Cron/Text.antt =====
-- What pkg/cron/parser.go uses of Go's strings and strconv, over the bytes of ASCII text.
use Prim.Native.Char.{code}
use Prim.Native.String.{String}
use tickraft.Base.{
  ℕ, zero, suc, ◌+◌, ◌-◌, ◌*◌, ◌^◌, Bool, true, false, ◌&&◌, ◌||◌, List, [], ◌∷◌, Option, some,
  none, leb, ◌==◌, if◌then◌else◌, ℤ, pos, negsuc,
}

abbrev pub Text : Type 0
Text = List ℕ

-- The bytes of a literal.
abbrev pub codes : String → Text
codes String.[] = []
codes (String.◌∷◌ c s) = code c ∷ codes s

unfoldable pub text_eq : Text → Text → Bool
text_eq [] [] = true
text_eq [] (d ∷ t) = false
text_eq (c ∷ s) [] = false
text_eq (c ∷ s) (d ∷ t) = c == d && text_eq s t

unfoldable pub is_space : ℕ → Bool
is_space c = leb b'\t' c && leb c b'\r' || c == b' '

unfoldable pub trim_left : Text → Text
unfolding is_space
trim_left [] = []
trim_left (c ∷ s) = let rest = trim_left s in if is_space c then rest else c ∷ s

unfoldable pub trim_right : Text → Text
unfolding is_space
trim_right [] = []
trim_right (c ∷ s) = elim (trim_right s) [
  | [] ↦ if is_space c then [] else c ∷ []
  | d ∷ t ↦ c ∷ d ∷ t
]

-- `strings.TrimSpace`
unfoldable pub trim_space : Text → Text
unfolding trim_left trim_right
trim_space s = trim_right (trim_left s)

unfoldable pub upper : ℕ → ℕ
upper c = if leb b'a' c && leb c b'z' then c - 32 else c

unfoldable pub lower : ℕ → ℕ
lower c = if leb b'A' c && leb c b'Z' then c + 32 else c

-- `strings.ToUpper` and `strings.ToLower`
unfoldable pub to_upper : Text → Text
unfolding upper
to_upper [] = []
to_upper (c ∷ s) = upper c ∷ to_upper s

unfoldable pub to_lower : Text → Text
unfolding lower
to_lower [] = []
to_lower (c ∷ s) = lower c ∷ to_lower s

-- `strings.Contains` of one byte, and `strings.ContainsAny`
unfoldable pub contains : ℕ → Text → Bool
contains c [] = false
contains c (d ∷ s) = d == c || contains c s

unfoldable pub contains_any : Text → Text → Bool
unfolding contains
contains_any s [] = false
contains_any s (c ∷ cs) = contains c s || contains_any s cs

-- `strings.HasPrefix`
unfoldable pub has_prefix : Text → Text → Bool
has_prefix s [] = true
has_prefix [] (d ∷ p) = false
has_prefix (c ∷ s) (d ∷ p) = c == d && has_prefix s p

abbrev pub drop : ℕ → Text → Text
drop zero s = s
drop (suc n) [] = []
drop (suc n) (c ∷ s) = drop n s

abbrev pub add_first : ℕ → List Text → List Text
add_first c [] = (c ∷ []) ∷ []
add_first c (p ∷ ps) = (c ∷ p) ∷ ps

-- `strings.Split` at one byte: always one piece at least.
unfoldable pub split : ℕ → Text → List Text
split sep [] = [] ∷ []
split sep (c ∷ s) = let rest = split sep s in if c == sep then [] ∷ rest else add_first c rest

-- `strings.SplitN(s, " ", 2)`: the part before the first space, and the part behind it.
unfoldable pub split_once : Text → Text × Option Text
split_once [] = ([], none)
split_once (c ∷ s) = let (a, b) = split_once s in if c == b' ' then ([], some s) else (c ∷ a, b)

unfoldable pub snoc : Text → ℕ → Text
snoc [] c = c ∷ []
snoc (d ∷ w) c = d ∷ snoc w c

-- `strings.Fields`: the runs of bytes that are no space.
unfoldable pub fields_from : Text → Text → List Text
unfolding is_space snoc
fields_from word [] = elim word [ [] ↦ [] | c ∷ w ↦ (c ∷ w) ∷ [] ]
fields_from word (c ∷ s) =
    let next = fields_from [] s in
    let longer = fields_from (snoc word c) s in
    if is_space c then (elim word [ [] ↦ next | d ∷ w ↦ (d ∷ w) ∷ next ]) else longer

unfoldable pub fields : Text → List Text
unfolding fields_from
fields s = fields_from [] s

-- Decimal digits behind `acc`; `none` at any other byte.
unfoldable pub digits : ℕ → Text → Option ℕ
digits acc [] = some acc
digits acc (c ∷ s) =
    let rest = digits (acc * 10 + (c - b'0')) s in if leb b'0' c && leb c b'9' then rest else none

-- `strconv.Atoi` behind a sign: at least one digit, and the value in range.
unfoldable pub unsigned : ℕ → Text → Option ℕ
unfolding digits
unsigned limit [] = none
unsigned limit (c ∷ s) = elim (digits 0 (c ∷ s)) [
  | none ↦ none
  | some n ↦ if leb n limit then some n else none
]

abbrev pub negate : ℕ → ℤ
negate zero = pos 0
negate (suc n) = negsuc n

unfoldable pub atoi : Text → Option ℤ
unfolding unsigned
atoi [] = none
atoi (c ∷ s) =
    if c == b'-'
    then (elim (unsigned (2 ^ 63) s) [ none ↦ none | some n ↦ some (negate n) ])
    else if c == b'+'
    then (elim (unsigned (2 ^ 63 - 1) s) [ none ↦ none | some n ↦ some (pos n) ])
    else (elim (unsigned (2 ^ 63 - 1) (c ∷ s)) [ none ↦ none | some n ↦ some (pos n) ])
