-- ===== src/Api/Auth/Access.antt =====
-- Whom the gate lets in, and what a start of the service has checked
-- (src/finance_rag/api/auth.py).
use finance_rag.Prelude.{
  ℕ, ◌≡◌, refl, ◌⊎◌, inl, inr, Bool, true, false, not, Option, none, some, List, [], ◌∷◌, is_empty,
  keep, In, All, arith, Bool-cases, Option-cases,
}
use mathlib.Core.Path.{subst}
use finance_rag.Text.{Text, codes, split, member}
use finance_rag.Text.Laws.{member-In}
use finance_rag.Config.{Settings, is_development, auth_required}
use finance_rag.Api.RateLimit.{Decision, Enforced, passed, too_many, Limiter, Pipeline, enforce}
use finance_rag.Api.Auth.{
  Principal, Failure, Result-cases, ok, err, unauthorized, limited, find_key, parse_api_keys,
  credential, KeyTable,
}
use finance_rag.Api.Auth.Gate.{
  TokenLibrary, authenticate_key, placed, authenticate, admit, require, verify_auth_configuration,
}
use finance_rag.Api.Auth.Keys.{Entry, parse_api_keys-Entry}

-- A list from which nothing is left out by a test passes it everywhere.
keep-none :
    (p : Text → Bool) (xs : List Text)
    → is_empty (keep (λ x. not (p x)) xs) ≡ true
    → All (λ x. p x ≡ true) xs
keep-none p [] h = tt
keep-none p (x ∷ xs) h = ground (arith, keep-none p xs)

All-member :
    (scopes needed : List Text)
    → All (λ s. member s scopes ≡ true) needed
    → All (λ s. In s scopes) needed
All-member scopes [] h = tt
All-member scopes (s ∷ ss) h = (member-In s scopes h.0, All-member scopes ss h.1)

Enforced-cases :
    (x : Enforced) → ((d : Decision) × (x ≡ passed d)) ⊎ ((d : Decision) × (x ≡ too_many d))
Enforced-cases (passed d) = inl (d, refl)
Enforced-cases (too_many d) = inr (d, refl)

module _ {K : Type 0} (st : Settings) (digest : Text → Text) (lib : TokenLibrary K) where
  authenticate_key-ok :
      (presented : Text) (p : Principal)
      → authenticate_key st digest lib presented ≡ ok p
      → (t : KeyTable) × (parse_api_keys digest st.auth_api_keys ≡ ok t)
        × (find_key (digest presented) t ≡ some p)
  unfolding authenticate_key
  authenticate_key-ok presented p h = elim (Result-cases (parse_api_keys digest st.auth_api_keys)) [
    | inl (f, e) ↦ absurd (ground arith)
    | inr (t, e) ↦ elim (Option-cases (find_key (digest presented) t)) [
      | inl g ↦ absurd (ground arith)
      | inr (q, g) ↦ (t, e, ground arith)
    ]
  ]

  -- With authentication on and no token issuer configured, a caller is let in only with a secret
  -- whose digest is that of a configured entry's secret, and gets the tenant, the key id and the
  -- scopes of that entry (the default tenant where tenancy is off), whatever the tenant header
  -- says.
  pub authenticate-Entry :
      (authorization x_org_id : Option Text) (p : Principal)
      → auth_required st ≡ true
      → is_empty st.auth_jwt_jwks_url ≡ true
      → authenticate st digest lib authorization x_org_id ≡ ok p
      → (presented : Text) × (credential authorization ≡ some presented)
        × (e : Text) × (q : Principal) × In e (split b',' st.auth_api_keys)
        × Entry digest e (digest presented) q
        × (p ≡ placed st digest lib q)
  unfolding authenticate
  authenticate-Entry authorization x_org_id p on keys h =
      elim (Option-cases (credential authorization)) [
        | inl c ↦ absurd (ground arith)
        | inr (presented, c) ↦ elim (Result-cases (authenticate_key st digest lib presented)) [
          | inl (f, r) ↦ absurd (ground arith)
          | inr (q, r) ↦
              let (t, parsed, found) = authenticate_key-ok presented q r in
              let (e, i, made) =
                (parse_api_keys-Entry digest st.auth_api_keys t parsed).1 (digest presented) q
                  found in
              (presented, c, e, q, i, made, ground arith)
        ]
      ]

  -- A service that has started with authentication on, outside development, can authenticate
  -- somebody: its keys parse, there is a key or a token issuer, and a token issuer has an issuer
  -- name and an audience pinned.
  pub verify_auth_configuration-closed :
      auth_required st ≡ true
      → is_development st ≡ false
      → verify_auth_configuration st digest lib ≡ none
      → (t : KeyTable) × (parse_api_keys digest st.auth_api_keys ≡ ok t)
        × ((is_empty t ≡ false) ⊎ (is_empty st.auth_jwt_jwks_url ≡ false))
        × (is_empty st.auth_jwt_jwks_url ≡ false
            → (is_empty st.auth_jwt_issuer ≡ false) × (is_empty st.auth_jwt_audience ≡ false))
  unfolding verify_auth_configuration
  verify_auth_configuration-closed on deployed h =
      elim (Result-cases (parse_api_keys digest st.auth_api_keys)) [
        | inl (f, e) ↦ absurd (ground arith)
        | inr (t, e) ↦ (t, e, ground arith, λ j. ground arith)
      ]

  -- After a start that the check let pass, with no token issuer configured, every caller that is
  -- not let in gets a 401: no request fails on the configuration.
  pub authenticate-unauthorized :
      (authorization x_org_id : Option Text) (f : Failure)
      → is_empty st.auth_jwt_jwks_url ≡ true
      → verify_auth_configuration st digest lib ≡ none
      → authenticate st digest lib authorization x_org_id ≡ err f
      → (detail : Text) × (f ≡ unauthorized detail)
  unfolding authenticate authenticate_key verify_auth_configuration
  authenticate-unauthorized authorization x_org_id f keys started h =
      elim (Result-cases (parse_api_keys digest st.auth_api_keys)) [
        | inl (g, e) ↦ absurd (ground arith)
        | inr (t, e) ↦ elim (Option-cases (credential authorization)) [
          | inl c ↦ (codes "missing bearer credential", ground arith)
          | inr (presented, c) ↦ elim (Option-cases (find_key (digest presented) t)) [
            | inl g ↦ (codes "invalid credential", ground arith)
            | inr (q, g) ↦ absurd (ground arith)
          ]
        ]
      ]

  module _ {R : Type 0} (hz : ℕ) (pipeline : Pipeline R) where
    -- A caller that a route admits is authenticated, holds every scope that the route demands, and
    -- has passed the rate limit of the route for its own key.
    pub require-In :
        (connected : Bool) (needed : List Text) (now : ℕ) (lm : Limiter R)
        (authorization x_org_id : Option Text) (p : Principal)
        → (require st digest lib hz pipeline connected needed now lm authorization x_org_id).0
          ≡ ok p
        → (authenticate st digest lib authorization x_org_id ≡ ok p)
          × All (λ s. In s p.scopes) needed
          × ((d : Decision) × ((enforce hz st pipeline connected p.key_id needed now lm).0
                ≡ passed d))
    unfolding require admit
    require-In connected needed now lm authorization x_org_id p h =
        elim (Result-cases (authenticate st digest lib authorization x_org_id)) [
          | inl (f, e) ↦ absurd (ground arith)
          | inr (q, e) ↦
              elim (Enforced-cases (enforce hz st pipeline connected q.key_id needed now lm).0) [
                | inl (d, r) ↦
                    let (none_missing, same) : ((is_empty
                            (keep (λ s. not (member s q.scopes)) needed)
                          ≡ true)
                        × (q ≡ p)) =
                      ground arith in
                    subst
                      (λ (x : Principal).
                        (authenticate st digest lib authorization x_org_id ≡ ok x)
                        × All (λ s. In s x.scopes) needed
                        × ((d' : Decision) × ((enforce hz st pipeline connected x.key_id needed now
                                lm).0
                              ≡ passed d')))
                      same
                      (
                        e,
                        All-member q.scopes needed
                            (keep-none (λ s. member s q.scopes) needed none_missing),
                        (d, r),
                      )
                | inr (d, r) ↦ absurd (ground arith)
              ]
        ]

    -- A caller that is turned away for any reason but the rate limit itself is not counted.
    pub require_uncounted :
        (connected : Bool) (needed : List Text) (now : ℕ) (lm : Limiter R)
        (authorization x_org_id : Option Text) (f : Failure)
        → (require st digest lib hz pipeline connected needed now lm authorization x_org_id).0
          ≡ err f
        → ((d : Decision) × (f ≡ limited d))
          ⊎ ((require st digest lib hz pipeline connected needed now lm authorization x_org_id).1
              ≡ lm)
    unfolding require admit
    require_uncounted connected needed now lm authorization x_org_id f h =
        elim (Result-cases (authenticate st digest lib authorization x_org_id)) [
          | inl (g, e) ↦ inr (ground arith)
          | inr (q, e) ↦
              elim (Enforced-cases (enforce hz st pipeline connected q.key_id needed now lm).0) [
                | inl (d, r) ↦ inr (ground arith)
                | inr (d, r) ↦
                    elim (Bool-cases (is_empty (keep (λ s. not (member s q.scopes)) needed))) [
                      | inl b ↦ inl (d, ground arith)
                      | inr b ↦ inr (ground arith)
                    ]
              ]
        ]
