-- ===== src/Regex.antt =====
-- Python's `re`, as far as the patterns of src/commercialrchproxy use it: a backtracking matcher,
-- which tries the alternatives in Python's order and goes on with what follows.
use commercial_rchproxy.Common.{
  ℕ, zero, suc, ◌-◌, Bool, true, false, not, Option, none, some, List, [], ◌∷◌, Bytes, length, take,
  ◌==◌, if◌then◌else◌, is_word, is_digit,
}

pub data Regex : Type 0 where
  empty : Regex
  -- a character of a class
  one : (ℕ → Bool) → Regex
  seq : Regex → Regex → Regex
  alt : Regex → Regex → Regex
  -- `r?`
  opt : Regex → Regex
  -- `[…]*` and `[…]*?`, of a class
  star : (ℕ → Bool) → Regex
  lazy_star : (ℕ → Bool) → Regex
  -- `(…)*`, of an expression that matches no empty text
  many : Regex → Regex
  -- `(?P<name>r)`
  group : ℕ → Regex → Regex
  -- `$`, `\b`, `(?<!\d)` and `(?!\d)`
  at_end word_boundary not_after_digit not_before_digit : Regex

-- The named groups, the latest first, and the text that is left.
abbrev pub Captures : Type 0
Captures = List (ℕ × Bytes)

abbrev pub Match : Type 0
Match = Captures × Bytes

-- What follows: from the character before the place, the text there and the groups.
abbrev pub Next : Type 0
Next = Option ℕ → Bytes → Captures → Option Match

abbrev pub or_else : Option Match → Option Match → Option Match
or_else none o = o
or_else (some m) o = some m

-- `$` also matches before a newline that ends the text.
abbrev pub is_at_end : Bytes → Bool
is_at_end [] = true
is_at_end (c ∷ []) = c == 10
is_at_end (c ∷ d ∷ cs) = false

abbrev pub is_class : (ℕ → Bool) → Option ℕ → Bool
is_class test none = false
is_class test (some c) = test c

abbrev pub head : Bytes → Option ℕ
head [] = none
head (c ∷ cs) = some c

-- The longest run of a class first, then the shorter ones.
unfoldable pub star_match : (ℕ → Bool) → Next → Option ℕ → Bytes → Captures → Option Match
star_match test next previous [] groups = next previous [] groups
star_match test next previous (c ∷ cs) groups = elim (test c) [
  | true ↦ or_else (star_match test next (some c) cs groups) (next previous (c ∷ cs) groups)
  | false ↦ next previous (c ∷ cs) groups
]

-- The shortest run first.
unfoldable pub lazy_match : (ℕ → Bool) → Next → Option ℕ → Bytes → Captures → Option Match
lazy_match test next previous [] groups = next previous [] groups
lazy_match test next previous (c ∷ cs) groups = elim (next previous (c ∷ cs) groups) [
  | some m ↦ some m
  | none ↦ elim (test c) [ true ↦ lazy_match test next (some c) cs groups | false ↦ none ]
]

-- Rounds of `body`, the longest first; each takes a character, so that as many as there are
-- characters are enough.
unfoldable pub many_match : ℕ → (Next → Next) → Next → Next
many_match zero body next previous s groups = next previous s groups
many_match (suc rounds) body next previous s groups =
    elim (body (many_match rounds body next) previous s groups) [
      | some m ↦ some m
      | none ↦ next previous s groups
    ]

unfoldable pub matches : Regex → Next → Next
unfolding star_match lazy_match many_match
matches empty next previous s groups = next previous s groups
matches (one test) next previous [] groups = none
matches (one test) next previous (c ∷ cs) groups = if test c then next (some c) cs groups else none
matches (seq r t) next previous s groups = matches r (matches t next) previous s groups
matches (alt r t) next previous s groups = elim (matches r next previous s groups) [
  | some m ↦ some m
  | none ↦ matches t next previous s groups
]
matches (opt r) next previous s groups =
    or_else (matches r next previous s groups) (next previous s groups)
matches (star test) next previous s groups = star_match test next previous s groups
matches (lazy_star test) next previous s groups = lazy_match test next previous s groups
matches (many r) next previous s groups = many_match (length s) (matches r) next previous s groups
matches (group name r) next previous s groups =
    matches r
      (λ before rest inner. next before rest ((name, take (length s - length rest) s) ∷ inner))
      previous s groups
matches at_end next previous s groups = if is_at_end s then next previous s groups else none
matches word_boundary next previous s groups =
    if (if is_class is_word previous
      then not (is_class is_word (head s))
      else is_class is_word (head s))
    then next previous s groups
    else none
matches not_after_digit next previous s groups =
    if is_class is_digit previous then none else next previous s groups
matches not_before_digit next previous s groups =
    if is_class is_digit (head s) then none else next previous s groups

-- `r.match(text)`, whose groups and rest it returns; each pattern starts with `^` or is matched.
unfoldable pub re_match : Regex → Bytes → Option Match
unfolding matches
re_match r s = matches r (λ _ rest groups. some (groups, rest)) none s []

abbrev pub if_ended : Bytes → Captures → Option Match
if_ended [] groups = some (groups, [])
if_ended (c ∷ cs) groups = none

-- `r.fullmatch(text)`
unfoldable pub re_fullmatch : Regex → Bytes → Option Match
unfolding matches
re_fullmatch r s = matches r (λ _ rest groups. if_ended rest groups) none s []

-- `r.search(text)`, behind the character before the text
unfoldable pub re_search : Regex → Option ℕ → Bytes → Option Match
unfolding matches
re_search r previous [] = matches r (λ _ rest groups. some (groups, rest)) previous [] []
re_search r previous (c ∷ cs) =
    elim (matches r (λ _ rest groups. some (groups, rest)) previous (c ∷ cs) []) [
      | some m ↦ some m
      | none ↦ re_search r (some c) cs
    ]

-- `r.finditer(text)`, of an expression that matches no empty text, `skipped` characters further on
unfoldable pub find_all : Regex → ℕ → Option ℕ → Bytes → List Captures
unfolding matches
find_all r skipped previous [] = []
find_all r (suc skipped) previous (c ∷ cs) = find_all r skipped (some c) cs
find_all r zero previous (c ∷ cs) =
    elim (matches r (λ _ rest groups. some (groups, rest)) previous (c ∷ cs) []) [
      | some (groups, rest) ↦ groups ∷ find_all r (length cs - length rest) (some c) cs
      | none ↦ find_all r zero (some c) cs
    ]

-- `m.group(name)`, which is `None` for a group that took no part
abbrev pub captured : ℕ → Captures → Option Bytes
captured name [] = none
captured name ((n, text) ∷ groups) = if n == name then some text else captured name groups

-- `m.group(name)`, of a group that every match has
abbrev pub captured_text : ℕ → Captures → Bytes
captured_text name groups = elim (captured name groups) [ none ↦ [] | some text ↦ text ]

-- A literal text.
unfoldable pub literal : Bytes → Regex
literal [] = empty
literal (c ∷ cs) = seq (one (λ d. d == c)) (literal cs)

-- `[…]+`
abbrev pub plus : (ℕ → Bool) → Regex
plus test = seq (one test) (star test)
