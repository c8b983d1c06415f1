-- ===== src/Text/Sorting.antt =====
-- `sorted(set(xs))` of texts: a strictly increasing list with the same members.
use finance_rag.Prelude.{refl, inl, inr, List, [], ◌∷◌, arith, if◌then◌else◌, In}
use finance_rag.Text.{Text, text_eq, text_lt}
use finance_rag.Text.Laws.{text_eq_sound}

unfoldable pub insert_sorted : Text → List Text → List Text
unfolding text_eq text_lt
insert_sorted a [] = a ∷ []
insert_sorted a (x ∷ xs) =
    let rest = insert_sorted a xs in
    if text_eq a x then x ∷ xs else if text_lt a x then a ∷ x ∷ xs else x ∷ rest

unfoldable pub sorted_set : List Text → List Text
unfolding insert_sorted
sorted_set [] = []
sorted_set (x ∷ xs) = insert_sorted x (sorted_set xs)

insert_sorted-In_self : (a : Text) (xs : List Text) → In a (insert_sorted a xs)
unfolding insert_sorted
insert_sorted-In_self a [] = inl refl
insert_sorted-In_self a (x ∷ xs) = ground (arith, insert_sorted-In_self a xs, text_eq_sound a x)

insert_sorted-In : (a b : Text) (xs : List Text) → In b xs → In b (insert_sorted a xs)
unfolding insert_sorted
insert_sorted-In a b [] h = elim h [ ]
insert_sorted-In a b (x ∷ xs) h = ground (arith, insert_sorted-In a b xs)

In-insert_sorted : (a b : Text) (xs : List Text) → In b (insert_sorted a xs) → In b (a ∷ xs)
unfolding insert_sorted
In-insert_sorted a b [] h = h
In-insert_sorted a b (x ∷ xs) h = ground (arith, In-insert_sorted a b xs)

pub sorted_set_complete : (a : Text) (xs : List Text) → In a xs → In a (sorted_set xs)
unfolding sorted_set
sorted_set_complete a [] h = h
sorted_set_complete a (x ∷ xs) (inl e) = rw e (insert_sorted-In_self x (sorted_set xs))
sorted_set_complete a (x ∷ xs) (inr h) =
    insert_sorted-In x a (sorted_set xs) (sorted_set_complete a xs h)

pub sorted_set_sound : (a : Text) (xs : List Text) → In a (sorted_set xs) → In a xs
unfolding sorted_set
sorted_set_sound a [] h = h
sorted_set_sound a (x ∷ xs) h = elim (In-insert_sorted x a (sorted_set xs) h) [
  | inl e ↦ inl e
  | inr p ↦ inr (sorted_set_sound a xs p)
]
