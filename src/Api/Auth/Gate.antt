-- ===== src/Api/Auth/Gate.antt =====
-- Who may call: the tokens, `authenticate`, `require` and the check at startup
-- (src/finance_rag/api/auth.py).
use finance_rag.Prelude.{
  ℕ, Bool, ◌&&◌, ◌||◌, not, Option, none, some, List, [], ◌∷◌, ◌++◌, if◌then◌else◌, keep, is_empty,
  get_or,
}
use finance_rag.Text.{Text, codes, strip, member}
use finance_rag.Text.Sorting.{sorted_set}
use finance_rag.Config.{Settings, is_development, auth_required}
use finance_rag.Agent.Roles.{non_empty}
use finance_rag.Api.RateLimit.{passed, too_many, Limiter, Pipeline, enforce}
use finance_rag.Api.Auth.{
  Principal, Failure, Result, ok, err, unpinned_issuer, nobody, unauthorized, unavailable,
  forbidden, limited, unexpected, jwt, all_scopes, key_principal, find_key, parse_api_keys,
  credential, looks_like_jwt, Claim, claim_scopes,
}

-- The claims of a token: `str(claims.get(k) or "")`, the claim that scopes are read from, and
-- `claims["sub"]`, which the decoding has required.
pub record Claims : Type 0 where
  pub text_of : Text → Text
  pub scopes_of : Text → Claim
  pub sub : Text

-- How `_signing_key` comes out: PyJWKClientConnectionError, PyJWKClientError, any other exception.
pub data KeyReply (K : Type 0) : Type 0 where
  signing : K → KeyReply K
  unreachable unknown_kid : KeyReply K
  key_raised : Text → KeyReply K

-- How `jwt.decode` comes out: ExpiredSignatureError, InvalidTokenError.
pub data Decoded : Type 0 where
  decoded : Claims → Decoded
  expired invalid : Decoded

-- The token library: the key of a token, and the decoding with a key, an audience and an issuer.
pub record TokenLibrary (K : Type 0) : Type 0 where
  pub signing_key : Text → KeyReply K
  pub decode : Text → K → Option Text → Option Text → Decoded

-- `tenant`
unfoldable pub tenant : Settings → Option Text → Text
tenant st x_org_id =
    let named = strip (get_or (non_empty x_org_id) st.default_org_id) in
    if not st.enforce_tenancy
    then st.default_org_id
    else get_or (non_empty (some named)) st.default_org_id

module _ {K : Type 0} (st : Settings) (digest : Text → Text) (lib : TokenLibrary K) where
  -- The principal that a token's claims name.
  unfoldable pub token_principal : Claims → Result Principal
  token_principal claims =
      let org = strip (claims.text_of st.auth_jwt_org_claim) in
      let scopes = claim_scopes (claims.scopes_of st.auth_jwt_scopes_claim) in
      if is_empty org
      then err (
          unauthorized (
            codes "token carries no tenant: claim '"
            ++ (st.auth_jwt_org_claim ++ codes "' is required")))
      else elim scopes [
        | err f ↦ err f
        | ok [] ↦ err (
            unauthorized (
              codes "token grants no scopes: claim '"
              ++ (st.auth_jwt_scopes_claim ++ codes "' is empty")))
        | ok (s ∷ ss) ↦ ok (record {
          org_id = org;
          key_id = codes "jwt";
          scopes = s ∷ ss;
          subject = get_or (non_empty (some claims.sub)) (codes "jwt");
          kind = jwt;
        })
      ]

  -- `_authenticate_jwt`
  unfoldable pub authenticate_jwt : Text → Result Principal
  authenticate_jwt token = elim (lib.signing_key token) [
    | unreachable ↦ err unavailable
    | unknown_kid ↦ err (unauthorized (codes "invalid credential"))
    | key_raised e ↦ err (unexpected e)
    | signing key ↦
        elim (lib.decode token key (non_empty (some st.auth_jwt_audience))
          (non_empty (some st.auth_jwt_issuer))) [
            | expired ↦ err (unauthorized (codes "token expired"))
            | invalid ↦ err (unauthorized (codes "invalid credential"))
            | decoded claims ↦ token_principal claims
          ]
  ]

  -- The principal of a key. A table that does not parse raises again on every call.
  unfoldable pub authenticate_key : Text → Result Principal
  authenticate_key presented = elim (parse_api_keys digest st.auth_api_keys) [
    | err f ↦ err f
    | ok table ↦ elim (find_key (digest presented) table) [
      | none ↦ err (unauthorized (codes "invalid credential"))
      | some p ↦ ok p
    ]
  ]

  -- With tenancy off, every principal belongs to the default organisation.
  unfoldable pub placed : Principal → Principal
  placed p = if st.enforce_tenancy then p else record p { org_id = st.default_org_id }

  unfoldable pub authenticate : Option Text → Option Text → Result Principal
  authenticate authorization x_org_id =
      if not (auth_required st)
      then ok (key_principal (tenant st x_org_id) (codes "anonymous") all_scopes)
      else elim (credential authorization) [
        | none ↦ err (unauthorized (codes "missing bearer credential"))
        | some presented ↦
            elim (if not (is_empty st.auth_jwt_jwks_url) && looks_like_jwt presented
              then authenticate_jwt presented
              else authenticate_key presented) [ err f ↦ err f | ok p ↦ ok (placed p) ]
      ]

  -- `require(*scopes)` on an authenticated principal, at a tick of the clock.
  module _ {R : Type 0} (hz : ℕ) (pipeline : Pipeline R) where
    unfoldable pub admit :
        Bool → List Text → ℕ → Limiter R → Principal → Result Principal × Limiter R
    admit connected needed now lm p =
        let missing = keep (λ s. not (member s p.scopes)) needed in
        let (outcome, after) = enforce hz st pipeline connected p.key_id needed now lm in
        if not (is_empty missing)
        then (err (forbidden (sorted_set missing)), lm)
        else (elim outcome [ passed d ↦ ok p | too_many d ↦ err (limited d) ], after)

    -- The dependency with the authentication that it depends on.
    unfoldable pub require :
        Bool → List Text → ℕ → Limiter R → Option Text → Option Text → Result Principal × Limiter R
    require connected needed now lm authorization x_org_id =
        elim (authenticate authorization x_org_id) [
          | err f ↦ (err f, lm)
          | ok p ↦ admit connected needed now lm p
        ]

  -- `verify_auth_configuration`: nothing, or what it raises.
  unfoldable pub verify_auth_configuration : Option Failure
  verify_auth_configuration =
      let jwt_on = not (is_empty st.auth_jwt_jwks_url) in
      if not (auth_required st) then none else elim (parse_api_keys digest st.auth_api_keys) [
        | err f ↦ some f
        | ok table ↦
            if jwt_on && (is_empty st.auth_jwt_issuer || is_empty st.auth_jwt_audience)
            then some unpinned_issuer
            else if not (is_empty table) || jwt_on
            then none
            else if is_development st
            then none
            else some nobody
      ]
