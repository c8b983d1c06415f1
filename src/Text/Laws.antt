-- ===== src/Text/Laws.antt =====
-- Laws of the equality and the membership of texts.
use finance_rag.Prelude.{◌≡◌, refl, inl, inr, true, false, List, [], ◌∷◌, arith, Bool-cases, In}
use finance_rag.Text.{Text, text_eq, member}

pub text_eq_sound : (s t : Text) → text_eq s t ≡ true → s ≡ t
unfolding text_eq
text_eq_sound [] [] h = refl
text_eq_sound [] (d ∷ t) h = ground arith
text_eq_sound (c ∷ s) [] h = ground arith
text_eq_sound (c ∷ s) (d ∷ t) h = ground (arith, text_eq_sound s t)

pub text_eq_refl : (s : Text) → text_eq s s ≡ true
unfolding text_eq
text_eq_refl [] = refl
text_eq_refl (c ∷ s) = ground (arith, text_eq_refl s)

pub text_eq-ne : (s t : Text) → text_eq s t ≡ false → ¬ (s ≡ t)
text_eq-ne s t h e = ground (arith, text_eq_refl s)

pub member-In : (a : Text) (xs : List Text) → member a xs ≡ true → In a xs
unfolding member
member-In a [] h = absurd (ground arith)
member-In a (x ∷ xs) h = elim (Bool-cases (text_eq a x)) [
  | inl e ↦ inl (text_eq_sound a x e)
  | inr e ↦ inr (member-In a xs (ground arith))
]

pub In-member : (a : Text) (xs : List Text) → In a xs → member a xs ≡ true
unfolding member
In-member a [] h = elim h [ ]
In-member a (x ∷ xs) (inl e) = ground (arith, text_eq_refl a)
In-member a (x ∷ xs) (inr h) = ground (arith, In-member a xs h)

pub text_eq_sym : (s t : Text) → text_eq s t ≡ false → text_eq t s ≡ false
text_eq_sym s t h = elim (Bool-cases (text_eq t s)) [
  | inl e ↦ let same = text_eq_sound t s e in absurd (ground (arith, text_eq_refl s))
  | inr e ↦ e
]
