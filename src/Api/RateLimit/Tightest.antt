-- ===== src/Api/RateLimit/Tightest.antt =====
-- The limit of a route among the limits of its scopes (src/finance_rag/api/ratelimit.py).
use finance_rag.Prelude.{
  none, ◌*◌, ◌≤◌, ◌<◌, ◌≡◌, refl, ◌⊎◌, inl, inr, some, List, [], ◌∷◌, if◌then◌else◌, In, All, arith,
  Bool-cases, Option-cases, ap, sym, ◌∙◌,
}
use mathlib.Core.Path.{subst}
use native.Mathlib.Nat.{le_of_mul-le-mul_right, mul-le-mul_right}
use finance_rag.Text.{Text}
use finance_rag.Config.{Settings}
use finance_rag.Api.RateLimit.{Limit, override, candidates, tighter, tightest, limits_for}

-- As many requests for each second, or fewer.
abbrev pub AsTight : Limit → Limit → Type 0
AsTight a b = a.0 * b.1 ≤ b.0 * a.1

AsTight-trans : (a b c : Limit) → 0 < b.1 → AsTight a b → AsTight b c → AsTight a c
AsTight-trans a b c pos h k =
    le_of_mul-le-mul_right {k = b.1} (omega (arith, mul-le-mul_right c.1 h, mul-le-mul_right a.1 k))
      pos

abbrev Positive : Limit → Type 0
Positive l = 0 < l.1

-- The better of two is as tight as both, and is one of them.
tighter-AsTight :
    (l best : Limit)
    → Positive l
    → Positive best
    → Positive (if tighter l best then l else best)
      × AsTight (if tighter l best then l else best) best
      × AsTight (if tighter l best then l else best) l
tighter-AsTight l best p q = elim (Bool-cases (tighter l best)) [
  | inl e ↦ rw e (p, ground arith, omega arith)
  | inr e ↦ rw e (q, omega arith, ground arith)
]

tightest-AsTight :
    (best : Limit) (ls : List Limit)
    → Positive best
    → All Positive ls
    → Positive (tightest best ls)
      × AsTight (tightest best ls) best
      × All (AsTight (tightest best ls)) ls
unfolding tightest
tightest-AsTight best [] p ps = (p, omega arith, tt)
tightest-AsTight best (l ∷ ls) p ps =
    let better = if tighter l best then l else best in
    let (positive, over, under) = tighter-AsTight l best ps.0 p in
    let (q, below, all) = tightest-AsTight better ls positive ps.1 in
    (
      q,
      AsTight-trans (tightest better ls) better best positive below over,
      (AsTight-trans (tightest better ls) better l positive below under, all),
    )

tightest-In : (best : Limit) (ls : List Limit) → In (tightest best ls) (best ∷ ls)
unfolding tightest
tightest-In best [] = inl refl
tightest-In best (l ∷ ls) = elim (tightest-In (if tighter l best then l else best) ls) [
  | inl e ↦ elim (Bool-cases (tighter l best)) [
    | inl t ↦ inr (inl (e ∙ rw t refl))
    | inr t ↦ inl (e ∙ rw t refl)
  ]
  | inr i ↦ inr (inr i)
]

override-Positive : (st : Settings) (s : Text) (l : Limit) → override st s ≡ some l → Positive l
unfolding override
override-Positive st s l h = ground arith

candidates-Positive : (st : Settings) (ss : List Text) → All Positive (candidates st ss)
unfolding candidates
candidates-Positive st [] = tt
candidates-Positive st (s ∷ ss) = elim (Option-cases (override st s)) [
  | inl e ↦ rw (e, All) (candidates-Positive st ss)
  | inr (l, e) ↦ rw (e, All) (override-Positive st s l e, candidates-Positive st ss)
]

candidates-In :
    (st : Settings) (s : Text) (l : Limit) (ss : List Text)
    → override st s ≡ some l
    → In s ss
    → In l (candidates st ss)
unfolding candidates
candidates-In st s l [] e h = absurd h
candidates-In st s l (x ∷ ss) e (inl p) = ground arith
candidates-In st s l (x ∷ ss) e (inr h) = ground (arith, candidates-In st s l ss e h)

In-candidates :
    (st : Settings) (l : Limit) (ss : List Text)
    → In l (candidates st ss)
    → (s : Text) × In s ss × (override st s ≡ some l)
unfolding candidates
In-candidates st l [] h = absurd h
In-candidates st l (x ∷ ss) h = elim (Option-cases (override st x)) [
  | inl e ↦ let (s, i, o) = In-candidates st l ss (rw (e, In) at h) in (s, inr i, o)
  | inr (m, e) ↦ first_or_later m e (rw (e, In) at h) (In-candidates st l ss)
]
  where
    first_or_later :
        (m : Limit)
        → override st x ≡ some m
        → (l ≡ m) ⊎ In l (candidates st ss)
        → (In l (candidates st ss) → (s : Text) × In s ss × (override st s ≡ some l))
        → (s : Text) × In s (x ∷ ss) × (override st s ≡ some l)
    first_or_later m e (inl p) later = (x, inl refl, e ∙ ap some (sym p))
    first_or_later m e (inr i) later = let (s, k, o) = later i in (s, inr k, o)

In-All : (P : Limit → Type 0) (l : Limit) (ls : List Limit) → All P ls → In l ls → P l
In-All P l [] h i = absurd i
In-All P l (x ∷ ls) h (inl e) = subst P (sym e) h.0
In-All P l (x ∷ ls) h (inr i) = In-All P l ls h.1 i

-- The limit of a route is no looser than that of any scope that it demands, and it is the limit
-- of one of those scopes; where no scope that it demands has one, it is the reading limit.
pub limits_for-AsTight :
    (st : Settings) (scopes : List Text)
    → ((s : Text) (l : Limit)
        → In s scopes
        → override st s ≡ some l
        → AsTight (limits_for st scopes) l)
      × (((s : Text) × In s scopes × (override st s ≡ some (limits_for st scopes)))
          ⊎ (((s : Text) → In s scopes → override st s ≡ none)
              × (limits_for st scopes ≡ (st.rate_limit_read, 60))))
unfolding limits_for
limits_for-AsTight st scopes = bounded (candidates st scopes) refl
  where
    chosen : List Limit → Limit
    chosen ls = elim ls [ [] ↦ (st.rate_limit_read, 60) | l ∷ ls ↦ tightest l ls ]

    bounded :
        (ls : List Limit)
        → candidates st scopes ≡ ls
        → ((s : Text) (l : Limit)
            → In s scopes
            → override st s ≡ some l
            → AsTight (chosen (candidates st scopes)) l)
          × (((s : Text) × In s scopes × (override st s ≡ some (chosen (candidates st scopes))))
              ⊎ (((s : Text) → In s scopes → override st s ≡ none)
                  × (chosen (candidates st scopes) ≡ (st.rate_limit_read, 60))))
    bounded [] e = (
      λ s l i o. absurd (subst (In l) e (candidates-In st s l scopes o i)),
      inr (unset, rw e refl),
    )
      where
        unset : (s : Text) → In s scopes → override st s ≡ none
        unset s i = elim (Option-cases (override st s)) [
          | inl o ↦ o
          | inr (l, o) ↦ absurd (subst (In l) e (candidates-In st s l scopes o i))
        ]
    bounded (x ∷ ls) e =
        let positive = subst (All Positive) e (candidates-Positive st scopes) in
        let (p, below, all) = tightest-AsTight x ls positive.0 positive.1 in
        (
          λ s l i o.
              rw (e, chosen)
                (In-All (AsTight (tightest x ls)) l (x ∷ ls) (below, all)
                  (subst (In l) e (candidates-In st s l scopes o i))),
          inl (
              rw (e, chosen)
                (In-candidates st (tightest x ls) scopes
                  (subst (In (tightest x ls)) (sym e) (tightest-In x ls)))),
        )
