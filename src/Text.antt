-- ===== src/Text.antt =====
-- Python's `str`, as a list of code points, with the methods that the program calls.
-- The case map, `\d` and `\w` are those of ASCII; whitespace is the whole of `str.isspace`.
pub mod Regex
pub mod Sorting
pub mod Decimal
pub mod Laws
use Prim.Native.Char.{code}
use Prim.Native.String.{String}
use finance_rag.Prelude.{
  ℕ, zero, suc, ◌+◌, ◌-◌, ◌≡◌, refl, Bool, true, false, ◌&&◌, ◌||◌, not, Option, none, some, List,
  [], ◌∷◌, ◌++◌, ltb, leb, ◌==◌, if◌then◌else◌, length, drop, is_empty, any_of, arith,
}

abbrev pub Text : Type 0
Text = List ℕ

abbrev pub codes : String → Text
codes String.[] = []
codes (String.◌∷◌ c s) = code c ∷ codes s

-- `s == t`
unfoldable pub text_eq : Text → Text → Bool
text_eq [] [] = true
text_eq [] (d ∷ t) = false
text_eq (c ∷ s) [] = false
text_eq (c ∷ s) (d ∷ t) = c == d && text_eq s t

-- `s < t`: by code point, a proper prefix first
unfoldable pub text_lt : Text → Text → Bool
text_lt s [] = false
text_lt [] (d ∷ t) = true
text_lt (c ∷ s) (d ∷ t) = ltb c d || (c == d && text_lt s t)

-- `str.isspace` of one character
unfoldable pub is_space : ℕ → Bool
is_space c =
    (leb 9 c && leb c 13)
    || (leb 28 c && leb c 32)
    || c == 0x85
    || c == 0xa0
    || c == 0x1680
    || (leb 0x2000 c && leb c 0x200a)
    || c == 0x2028
    || c == 0x2029
    || c == 0x202f
    || c == 0x205f
    || c == 0x3000

abbrev pub is_digit : ℕ → Bool
is_digit c = leb b'0' c && leb c b'9'

abbrev pub is_upper : ℕ → Bool
is_upper c = leb b'A' c && leb c b'Z'

abbrev pub is_lower : ℕ → Bool
is_lower c = leb b'a' c && leb c b'z'

-- `\w`
unfoldable pub is_word : ℕ → Bool
is_word c = is_digit c || is_upper c || is_lower c || c == b'_'

unfoldable pub to_lower : ℕ → ℕ
to_lower c = if is_upper c then c + 32 else c

unfoldable pub lower : Text → Text
unfolding to_lower
lower [] = []
lower (c ∷ s) = to_lower c ∷ lower s

unfoldable pub strip_left : Text → Text
unfolding is_space
strip_left [] = []
strip_left (c ∷ s) = if is_space c then strip_left s else c ∷ s

unfoldable pub strip_right : Text → Text
unfolding is_space
strip_right [] = []
strip_right (c ∷ s) =
    let rest = strip_right s in if is_space c && is_empty rest then [] else c ∷ rest

-- `s.strip()`; `strip_left` is `s.lstrip()` and `strip_right` is `s.rstrip()`
unfoldable pub strip : Text → Text
unfolding strip_left strip_right
strip s = strip_left (strip_right s)

unfoldable pub starts_with : Text → Text → Bool
starts_with [] s = true
starts_with (c ∷ p) [] = false
starts_with (c ∷ p) (d ∷ s) = c == d && starts_with p s

-- `p in s`
unfoldable pub contains : Text → Text → Bool
unfolding starts_with
contains p [] = is_empty p
contains p (c ∷ s) = starts_with p (c ∷ s) || contains p s

-- `sep.join(parts)`
unfoldable pub join : Text → List Text → Text
join sep [] = []
join sep (t ∷ []) = t
join sep (t ∷ u ∷ ts) = t ++ (sep ++ join sep (u ∷ ts))

-- `s.split(c)` at a single character: a first field, and the ones behind it
unfoldable pub split_at : ℕ → Text → Text × List Text
split_at c [] = ([], [])
split_at c (d ∷ s) = let (t, ts) = split_at c s in if d == c then ([], t ∷ ts) else (d ∷ t, ts)

unfoldable pub split : ℕ → Text → List Text
unfolding split_at
split c s = let (t, ts) = split_at c s in t ∷ ts

-- `s.split(c, n)`: at most `n` cuts, the rest left whole
unfoldable pub split_max_at : ℕ → ℕ → Text → Text × List Text
split_max_at c zero s = (s, [])
split_max_at c (suc n) [] = ([], [])
split_max_at c (suc n) (d ∷ s) =
    let (t, ts) = split_max_at c n s in
    let (u, us) = split_max_at c (suc n) s in if d == c then ([], t ∷ ts) else (d ∷ u, us)

unfoldable pub split_max : ℕ → ℕ → Text → List Text
unfolding split_max_at
split_max c n s = let (t, ts) = split_max_at c n s in t ∷ ts

-- `a in xs`, on texts
unfoldable pub member : Text → List Text → Bool
unfolding text_eq
member a [] = false
member a (x ∷ xs) = text_eq a x || member a xs

strip_runs : strip (codes " a b ") ≡ codes "a b"
unfolding strip
strip_runs = refl

split_runs : split_max b':' 2 (codes "a:b::c") ≡ codes "a" ∷ codes "b" ∷ codes ":c" ∷ []
unfolding split_max
split_runs = refl
