-- ===== src/Text/Regex/Laws.antt =====
-- How substitution and search relate.
use finance_rag.Prelude.{ℕ, ◌≡◌, refl, false, Option, none, some, [], ◌∷◌, arith}
use finance_rag.Text.{Text}
use finance_rag.Text.Regex.{Regex, search, search_from, sub, sub_from, taken}

sub_from-absent :
    (r : Regex) (repl : Text) (p : Option ℕ) (s : Text)
    → search_from r p s ≡ false
    → sub_from r repl 0 p s ≡ s
unfolding search_from sub_from taken
sub_from-absent r repl p [] h = refl
sub_from-absent r repl p (x ∷ s) h = ground (arith, sub_from-absent r repl (some x) s)

-- `re.sub` leaves a text alone in which `re.search` finds no match.
pub sub-absent : (r : Regex) (repl s : Text) → search r s ≡ false → sub r repl s ≡ s
unfolding search sub
sub-absent r repl s h = sub_from-absent r repl none s h
