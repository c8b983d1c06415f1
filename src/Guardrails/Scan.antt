-- ===== src/Guardrails/Scan.antt =====
-- `CITATION_RE.findall` on bracketed ids (src/finance_rag/guardrails/pipeline.py).
use finance_rag.Prelude.{
  ℕ, zero, suc, ◌-◌, ◌≤◌, ◌≡◌, refl, inl, inr, true, false, Option, none, some, List, [], ◌∷◌, ◌++◌,
  ◌==◌, if◌then◌else◌, length, length-append, all_of, take, In, arith, Option-cases, ap,
}
use mathlib.Core.Path.{sym, subst}
use mathlib.Core.List.{append_assoc}
use finance_rag.Text.{Text}
use finance_rag.Text.Regex.{one, Rest, Next, stop, star_match, match_at, taken, found_from, found}
use finance_rag.Guardrails.Patterns.{is_id_char, citation_re}
use finance_rag.Guardrails.Output.{inside, insides, tokens}

-- The text behind the `]` that follows a run of id characters.
closing : Text → Option Text
closing [] = none
closing (c ∷ s) =
    let rest = closing s in if is_id_char c then rest else if c == b']' then some s else none

-- The same, behind so many id characters that there have to be.
run_end : ℕ → Text → Option Text
unfolding closing
run_end zero s = closing s
run_end (suc n) [] = none
run_end (suc n) (c ∷ s) = let rest = run_end n s in if is_id_char c then rest else none

-- The text behind a citation at the head.
citation_end : Text → Option Text
unfolding run_end
citation_end [] = none
citation_end (o ∷ s) = if o == b'[' then run_end 4 s else none

abbrev close_next : Next
close_next p s = match_at (one (λ c. c == b']')) p s stop

abbrev behind : Option Text → Option Rest
behind none = none
behind (some t) = some (some b']', t)

star_closing : (p : Option ℕ) (s : Text) → star_match is_id_char p s close_next ≡ behind (closing s)
unfolding star_match match_at closing is_id_char
star_closing p [] = refl
star_closing p (c ∷ s) = ground (arith, star_closing (some c) s)

citation_match : (p : Option ℕ) (s : Text) → match_at citation_re p s stop ≡ behind (citation_end s)
unfolding match_at citation_re citation_end
citation_match p [] = refl
citation_match p (o ∷ []) = ground arith
citation_match p (o ∷ c ∷ []) = ground arith
citation_match p (o ∷ c ∷ d ∷ []) = ground arith
citation_match p (o ∷ c ∷ d ∷ e ∷ []) = ground arith
citation_match p (o ∷ c ∷ d ∷ e ∷ f ∷ s) = ground (arith, star_closing (some f) s)

bracket_no_id : is_id_char b'[' ≡ false
unfolding is_id_char
bracket_no_id = refl

close_no_id : is_id_char b']' ≡ false
unfolding is_id_char
close_no_id = refl

-- A match that begins before a `[` ends before it.
closing-within :
    (pre tail t : Text) → closing (pre ++ b'[' ∷ tail) ≡ some t → suc (length tail) ≤ length t
unfolding closing
closing-within [] tail t h = ground (arith, bracket_no_id)
closing-within (c ∷ pre) tail t h =
    ground (arith, closing-within pre tail t, length-append pre (b'[' ∷ tail))

run_end-within :
    (n : ℕ) (pre tail t : Text)
    → run_end n (pre ++ b'[' ∷ tail) ≡ some t
    → suc (length tail) ≤ length t
unfolding run_end
run_end-within zero pre tail t h = closing-within pre tail t h
run_end-within (suc n) [] tail t h = ground (arith, bracket_no_id)
run_end-within (suc n) (c ∷ pre) tail t h = ground (arith, run_end-within n pre tail t)

citation_end-within :
    (c : ℕ) (pre tail t : Text)
    → citation_end (c ∷ pre ++ b'[' ∷ tail) ≡ some t
    → suc (length tail) ≤ length t
unfolding citation_end
citation_end-within c pre tail t h = ground (arith, run_end-within 4 pre tail t)

closing-hit :
    (id post : Text) → all_of is_id_char id ≡ true → closing (id ++ b']' ∷ post) ≡ some post
unfolding closing
closing-hit [] post h = ground (arith, close_no_id)
closing-hit (c ∷ id) post h = ground (arith, closing-hit id post)

run_end-hit :
    (n : ℕ) (id post : Text)
    → all_of is_id_char id ≡ true
    → n ≤ length id
    → run_end n (id ++ b']' ∷ post) ≡ some post
unfolding run_end
run_end-hit zero id post h l = closing-hit id post h
run_end-hit (suc n) [] post h l = absurd (omega arith)
run_end-hit (suc n) (c ∷ id) post h l = ground (arith, run_end-hit n id post)

taken-none : (p : Option ℕ) (s : Text) → citation_end s ≡ none → taken citation_re p s ≡ none
unfolding taken citation_re
taken-none p s h = rw (citation_match p s, h) refl

taken-some :
    (p : Option ℕ) (s t : Text)
    → citation_end s ≡ some t
    → taken citation_re p s ≡ some (length s - length t)
unfolding taken citation_re
taken-some p s t h = rw (citation_match p s, h) refl

take_all : (a post : Text) → take (length a) (a ++ post) ≡ a
take_all [] post = refl
take_all (x ∷ a) post = ap (◌∷◌ x) (take_all a post)

abbrev bracketed : Text → Text
bracketed id = b'[' ∷ (id ++ b']' ∷ [])

take-bracketed :
    (id post : Text)
    → take (length (b'[' ∷ (id ++ b']' ∷ post)) - length post) (b'[' ∷ (id ++ b']' ∷ post))
      ≡ bracketed id
take-bracketed id post = rw count (
    subst (λ x. take (length (bracketed id)) x ≡ bracketed id) (sym whole)
      (take_all (bracketed id) post))
  where
    whole : b'[' ∷ (id ++ b']' ∷ post) ≡ bracketed id ++ post
    whole = ap (◌∷◌ b'[') (sym (append_assoc id (b']' ∷ []) post))

    count : length (b'[' ∷ (id ++ b']' ∷ post)) - length post ≡ length (bracketed id)
    count = omega (arith, length-append id (b']' ∷ post), length-append id (b']' ∷ []))

inside-bracketed : (id : Text) → inside (bracketed id) ≡ id
unfolding inside
inside-bracketed id =
    let e : length (bracketed id) - 2 ≡ length id = omega (arith, length-append id (b']' ∷ [])) in
    rw e (take_all id (b']' ∷ []))

module _ (id post : Text) (well_formed : all_of is_id_char id ≡ true)
    (long_enough : 4 ≤ length id) where
  abbrev cited_text : Text
  cited_text = b'[' ∷ (id ++ b']' ∷ post)

  citation_end-cited : citation_end cited_text ≡ some post
  unfolding citation_end
  citation_end-cited = run_end-hit 4 id post well_formed long_enough

  found_from-In :
      (skip : ℕ) (p : Option ℕ) (pre : Text)
      → skip ≤ length pre
      → In (bracketed id) (found_from citation_re skip p (pre ++ cited_text))
  unfolding found_from
  found_from-In zero p [] l =
      rw (taken-some p cited_text post citation_end-cited, found_from)
        (inl (sym (take-bracketed id post)))
  found_from-In (suc skip) p [] l = absurd (omega arith)
  found_from-In (suc skip) p (x ∷ pre) l = found_from-In skip (some x) pre (omega arith)
  found_from-In zero p (x ∷ pre) l = elim (Option-cases (citation_end (x ∷ pre ++ cited_text))) [
    | inl miss ↦
        rw (taken-none p (x ∷ pre ++ cited_text) miss, found_from)
          (found_from-In zero (some x) pre (omega arith))
    | inr (t, hit) ↦
        rw (taken-some p (x ∷ pre ++ cited_text) t hit, found_from)
          (inr (
            found_from-In (length (x ∷ pre ++ cited_text) - length t - 1) (some x) pre (
              omega (
                arith,
                citation_end-within x pre (id ++ b']' ∷ post) t hit,
                length-append pre cited_text,
              ))))
  ]

insides-In : (m : Text) (ms : List Text) → In m ms → In (inside m) (insides ms)
unfolding insides
insides-In m [] h = elim h [ ]
insides-In m (x ∷ ms) (inl e) = inl (ap inside e)
insides-In m (x ∷ ms) (inr h) = inr (insides-In m ms h)

-- Wherever an answer has a bracketed run of at least four id characters, that run is among the
-- citation tokens.
pub tokens_complete :
    (pre id post : Text)
    → all_of is_id_char id ≡ true
    → 4 ≤ length id
    → In id (tokens (pre ++ (b'[' ∷ (id ++ b']' ∷ post))))
unfolding tokens found
tokens_complete pre id post h l =
    subst (λ x. In x (tokens (pre ++ (b'[' ∷ (id ++ b']' ∷ post))))) (inside-bracketed id)
      (insides-In _ _ (found_from-In id post h l 0 none pre (omega arith)))
