-- ===== src/Text/Regex.antt =====
-- The part of Python's `re` that the program's patterns use: a backtracking matcher over the
-- syntax of a pattern, in the order in which `re` tries the alternatives, and `search`, `sub` and
-- `findall` over it. No pattern of the program matches the empty text.
pub mod Laws
use finance_rag.Prelude.{
  ℕ, zero, suc, ◌-◌, ◌≡◌, refl, Bool, true, false, not, ◌||◌, Option, none, some, List, [], ◌∷◌,
  ◌++◌, ◌==◌, if◌then◌else◌, length, take, is_some,
}
use finance_rag.Text.{Text, codes, is_digit, is_word}

pub data Regex : Type 0 where
  -- one character of a class
  one : (ℕ → Bool) → Regex
  -- nothing
  eps : Regex
  seq : Regex → Regex → Regex
  -- `a|b`: the left one first
  alt : Regex → Regex → Regex
  -- `[class]*` and `[class]*?`
  star : (ℕ → Bool) → Regex
  lazy_star : (ℕ → Bool) → Regex
  -- `\b`
  edge : Regex

-- What follows a match: the character before it, and the text after it.
abbrev pub Rest : Type 0
Rest = Option ℕ × Text

abbrev pub Next : Type 0
Next = Option ℕ → Text → Option Rest

unfoldable pub star_match : (ℕ → Bool) → Option ℕ → Text → Next → Option Rest
star_match c p [] k = k p []
star_match c p (x ∷ s) k = elim (c x) [
  | true ↦ elim (star_match c (some x) s k) [ some r ↦ some r | none ↦ k p (x ∷ s) ]
  | false ↦ k p (x ∷ s)
]

unfoldable pub lazy_match : (ℕ → Bool) → Option ℕ → Text → Next → Option Rest
lazy_match c p [] k = k p []
lazy_match c p (x ∷ s) k = elim (k p (x ∷ s)) [
  | some r ↦ some r
  | none ↦ elim (c x) [ true ↦ lazy_match c (some x) s k | false ↦ none ]
]

abbrev pub word_at : Option ℕ → Bool
word_at none = false
word_at (some x) = is_word x

abbrev pub first_of_text : Text → Option ℕ
first_of_text [] = none
first_of_text (x ∷ s) = some x

abbrev pub differ : Bool → Bool → Bool
differ true b = not b
differ false b = b

-- `p` is the character before the position, if there is one.
unfoldable pub match_at : Regex → Option ℕ → Text → Next → Option Rest
unfolding star_match lazy_match is_word
match_at (one c) p [] k = none
match_at (one c) p (x ∷ s) k = if c x then k (some x) s else none
match_at eps p s k = k p s
match_at (seq a b) p s k = match_at a p s (λ p' s'. match_at b p' s' k)
match_at (alt a b) p s k = elim (match_at a p s k) [ some r ↦ some r | none ↦ match_at b p s k ]
match_at (star c) p s k = star_match c p s k
match_at (lazy_star c) p s k = lazy_match c p s k
match_at edge p s k = if differ (word_at p) (word_at (first_of_text s)) then k p s else none

abbrev pub stop : Next
stop p s = some (p, s)

-- `re.search(r, s) is not None`
unfoldable pub search_from : Regex → Option ℕ → Text → Bool
unfolding match_at
search_from r p [] = is_some (match_at r p [] stop)
search_from r p (x ∷ s) = is_some (match_at r p (x ∷ s) stop) || search_from r (some x) s

unfoldable pub search : Regex → Text → Bool
unfolding search_from
search r s = search_from r none s

-- How many characters a match at the head of the text takes.
unfoldable pub taken : Regex → Option ℕ → Text → Option ℕ
unfolding match_at
taken r p s = elim (match_at r p s stop) [
  | none ↦ none
  | some (q, rest) ↦ some (length s - length rest)
]

-- `re.sub(r, repl, s)`; `skip` characters belong to the match before.
unfoldable pub sub_from : Regex → Text → ℕ → Option ℕ → Text → Text
unfolding taken
sub_from r repl skip p [] = []
sub_from r repl (suc skip) p (x ∷ s) = sub_from r repl skip (some x) s
sub_from r repl zero p (x ∷ s) = elim (taken r p (x ∷ s)) [
  | none ↦ x ∷ sub_from r repl zero (some x) s
  | some n ↦ repl ++ sub_from r repl (n - 1) (some x) s
]

unfoldable pub sub : Regex → Text → Text → Text
unfolding sub_from
sub r repl s = sub_from r repl 0 none s

-- `[m.group(0) for m in re.finditer(r, s)]`
unfoldable pub found_from : Regex → ℕ → Option ℕ → Text → List Text
unfolding taken
found_from r skip p [] = []
found_from r (suc skip) p (x ∷ s) = found_from r skip (some x) s
found_from r zero p (x ∷ s) = elim (taken r p (x ∷ s)) [
  | none ↦ found_from r zero (some x) s
  | some n ↦ take n (x ∷ s) ∷ found_from r (n - 1) (some x) s
]

unfoldable pub found : Regex → Text → List Text
unfolding found_from
found r s = found_from r 0 none s

-- The syntax of patterns.
unfoldable pub literal : Text → Regex
literal [] = eps
literal (c ∷ s) = seq (one (λ x. x == c)) (literal s)

-- `r{n}`
unfoldable pub times : ℕ → Regex → Regex
times zero r = eps
times (suc n) r = seq r (times n r)

-- `r{0,n}`
unfoldable pub up_to : ℕ → Regex → Regex
up_to zero r = eps
up_to (suc n) r = alt (seq r (up_to n r)) eps

-- `.`
unfoldable pub any_char : ℕ → Bool
any_char c = not (c == 10)

ssn : Regex
unfolding times
ssn = seq edge (seq (times 3 (one is_digit)) (seq (one (λ x. x == b'-')) edge))

search_runs : search ssn (codes "a 123-b") ≡ true
unfolding ssn search
search_runs = refl

sub_runs : sub ssn (codes "#") (codes "a 123-b 12-") ≡ codes "a #b 12-"
unfolding ssn sub
sub_runs = refl
