-- ===== src/Api/Auth/Tests.antt =====
-- Callers before a gate with two keys, and the theorems applied to them.
use finance_rag.Prelude.{
  ℕ, suc, ◌≡◌, refl, ◌⊎◌, true, false, none, some, [], ◌∷◌, is_empty, In, All,
}
use finance_rag.Api.Auth.Keys.{Entry, parse_api_keys-Entry}
use finance_rag.Api.Auth.Access.{
  authenticate-unauthorized, authenticate-Entry, require-In, require_uncounted,
}
use finance_rag.Text.{
  Text, codes, text_eq, text_lt, is_space, is_word, to_lower, lower, strip_left, strip_right, strip,
  starts_with, contains, join, split_at, split, split_max_at, split_max, member,
}
use finance_rag.Text.Decimal.{decimal, number}
use finance_rag.Text.Sorting.{insert_sorted, sorted_set}
use finance_rag.Config.{Settings, defaults, is_development, auth_required}
use finance_rag.Api.RateLimit.{
  Limiter, Pipeline, Decision, passed, override, candidates, tightest, limits_for, lookup, insert,
  next_entry, prune, incr, bucket, decide, check, enforce, detail, redis,
}
use finance_rag.Api.Auth.{
  Principal, ok, err, unauthorized, limited, forbidden, all_scopes, string, unknown_scopes,
  KeyTable, key_principal, scope_names, parse_scopes, find_key, append_key, add_key, add_fields,
  add_entry, add_entries, parse_api_keys, credential, looks_like_jwt, pieces_at, words,
  claim_scopes,
}
use finance_rag.Api.Auth.Gate.{
  TokenLibrary, unknown_kid, invalid, tenant, token_principal, authenticate_jwt, authenticate_key,
  placed, authenticate, admit, require, verify_auth_configuration,
}

-- A deployment with two keys.
abbrev deployed : Settings
deployed = record defaults {
  app_env = codes "production";
  auth_enabled = some true;
  auth_api_keys = codes "k1:org-a:ask|READ:s3:x, k2:org-b:*:s4";
}

-- No digest at all, and an issuer that knows no token.
abbrev plain : Text → Text
plain s = s

abbrev no_tokens : TokenLibrary ℕ
no_tokens = record { signing_key = λ t. unknown_kid; decode = λ t k a i. invalid }

abbrev one_key : Principal
one_key = key_principal (codes "org-a") (codes "k1") (codes "ask" ∷ codes "read" ∷ [])

abbrev two_keys : KeyTable
two_keys =
    (codes "s3:x", one_key)
    ∷ (codes "s4", key_principal (codes "org-b") (codes "k2") all_scopes)
    ∷ []

keys_parsed : parse_api_keys plain deployed.auth_api_keys ≡ ok two_keys
unfolding text_eq text_lt is_space is_word to_lower lower strip_left strip_right strip starts_with
    contains join split_at split split_max_at split_max member decimal number insert_sorted
    sorted_set is_development auth_required override candidates tightest limits_for lookup insert
    next_entry prune incr bucket decide check enforce detail redis scope_names parse_scopes find_key
    append_key add_key add_fields add_entry add_entries parse_api_keys credential looks_like_jwt
    pieces_at words claim_scopes tenant token_principal authenticate_jwt authenticate_key placed
    authenticate admit require verify_auth_configuration
keys_parsed = refl

parse_api_keys-Entry_example :
    ((e : Text)
      → In e (split b',' deployed.auth_api_keys)
      → is_empty (strip e) ≡ false
      → (d : Text) × (p : Principal) × Entry plain e d p × (find_key d two_keys ≡ some p))
    × ((d : Text) (p : Principal)
        → find_key d two_keys ≡ some p
        → (e : Text) × In e (split b',' deployed.auth_api_keys) × Entry plain e d p)
parse_api_keys-Entry_example =
    parse_api_keys-Entry plain deployed.auth_api_keys two_keys keys_parsed

-- The tenant header of somebody else changes nothing.
caller_in :
    (auth_required deployed ≡ true)
    × (authenticate deployed plain no_tokens (some (codes "Bearer s3:x")) (some (codes "org-b"))
        ≡ ok one_key)
unfolding text_eq text_lt is_space is_word to_lower lower strip_left strip_right strip starts_with
    contains join split_at split split_max_at split_max member decimal number insert_sorted
    sorted_set is_development auth_required override candidates tightest limits_for lookup insert
    next_entry prune incr bucket decide check enforce detail redis scope_names parse_scopes find_key
    append_key add_key add_fields add_entry add_entries parse_api_keys credential looks_like_jwt
    pieces_at words claim_scopes tenant token_principal authenticate_jwt authenticate_key placed
    authenticate admit require verify_auth_configuration
caller_in = (refl, refl)

authenticate-Entry_example :
    (presented : Text) × (credential (some (codes "Bearer s3:x")) ≡ some presented)
    × (e : Text) × (q : Principal) × In e (split b',' deployed.auth_api_keys)
    × Entry plain e (plain presented) q
    × (one_key ≡ placed deployed plain no_tokens q)
authenticate-Entry_example =
    authenticate-Entry deployed plain no_tokens (some (codes "Bearer s3:x")) (some (codes "org-b"))
      one_key caller_in.0 refl caller_in.1

started :
    (is_development deployed ≡ false) × (verify_auth_configuration deployed plain no_tokens ≡ none)
unfolding text_eq text_lt is_space is_word to_lower lower strip_left strip_right strip starts_with
    contains join split_at split split_max_at split_max member decimal number insert_sorted
    sorted_set is_development auth_required override candidates tightest limits_for lookup insert
    next_entry prune incr bucket decide check enforce detail redis scope_names parse_scopes find_key
    append_key add_key add_fields add_entry add_entries parse_api_keys credential looks_like_jwt
    pieces_at words claim_scopes tenant token_principal authenticate_jwt authenticate_key placed
    authenticate admit require verify_auth_configuration
started = (refl, refl)

stranger_out :
    authenticate deployed plain no_tokens (some (codes "Bearer s5")) none
    ≡ err (unauthorized (codes "invalid credential"))
unfolding text_eq text_lt is_space is_word to_lower lower strip_left strip_right strip starts_with
    contains join split_at split split_max_at split_max member decimal number insert_sorted
    sorted_set is_development auth_required override candidates tightest limits_for lookup insert
    next_entry prune incr bucket decide check enforce detail redis scope_names parse_scopes find_key
    append_key add_key add_fields add_entry add_entries parse_api_keys credential looks_like_jwt
    pieces_at words claim_scopes tenant token_principal authenticate_jwt authenticate_key placed
    authenticate admit require verify_auth_configuration
stranger_out = refl

authenticate-unauthorized_example :
    (detail : Text) × (unauthorized (codes "invalid credential") ≡ unauthorized detail)
authenticate-unauthorized_example =
    authenticate-unauthorized deployed plain no_tokens (some (codes "Bearer s5")) none
      (unauthorized (codes "invalid credential")) refl started.1 stranger_out

abbrev counting : Pipeline ℕ
counting key window n = (some (suc n), suc n)

abbrev fresh : Limiter ℕ
fresh = record { counts = []; remote = 0 }

admitted :
    (require deployed plain no_tokens 10 counting true
      (codes "ask" ∷ [])
      6100
      fresh
      (some (codes "Bearer s3:x"))
      none).0
    ≡ ok one_key
unfolding text_eq text_lt is_space is_word to_lower lower strip_left strip_right strip starts_with
    contains join split_at split split_max_at split_max member decimal number insert_sorted
    sorted_set is_development auth_required override candidates tightest limits_for lookup insert
    next_entry prune incr bucket decide check enforce detail redis scope_names parse_scopes find_key
    append_key add_key add_fields add_entry add_entries parse_api_keys credential looks_like_jwt
    pieces_at words claim_scopes tenant token_principal authenticate_jwt authenticate_key placed
    authenticate admit require verify_auth_configuration
admitted = refl

require-In_example :
    (authenticate deployed plain no_tokens (some (codes "Bearer s3:x")) none ≡ ok one_key)
    × All (λ s. In s one_key.scopes) (codes "ask" ∷ [])
    × ((d : Decision) × ((enforce 10 deployed counting true one_key.key_id
            (codes "ask" ∷ [])
            6100
            fresh).0
          ≡ passed d))
require-In_example =
    require-In deployed plain no_tokens 10 counting true (codes "ask" ∷ []) 6100 fresh
      (some (codes "Bearer s3:x")) none one_key admitted

turned_away :
    (require deployed plain no_tokens 10 counting true
      (codes "index" ∷ [])
      6100
      fresh
      (some (codes "Bearer s3:x"))
      none).0
    ≡ err (forbidden (codes "index" ∷ []))
unfolding text_eq text_lt is_space is_word to_lower lower strip_left strip_right strip starts_with
    contains join split_at split split_max_at split_max member decimal number insert_sorted
    sorted_set is_development auth_required override candidates tightest limits_for lookup insert
    next_entry prune incr bucket decide check enforce detail redis scope_names parse_scopes find_key
    append_key add_key add_fields add_entry add_entries parse_api_keys credential looks_like_jwt
    pieces_at words claim_scopes tenant token_principal authenticate_jwt authenticate_key placed
    authenticate admit require verify_auth_configuration
turned_away = refl

require_uncounted_example :
    ((d : Decision) × (forbidden (codes "index" ∷ []) ≡ limited d))
    ⊎ ((require deployed plain no_tokens 10 counting true
          (codes "index" ∷ [])
          6100
          fresh
          (some (codes "Bearer s3:x"))
          none).1
        ≡ fresh)
require_uncounted_example =
    require_uncounted deployed plain no_tokens 10 counting true (codes "index" ∷ []) 6100 fresh
      (some (codes "Bearer s3:x")) none (forbidden (codes "index" ∷ [])) turned_away

-- A scope claim that also names a scope of the issuer's own raises the error of a bad key setting.
openid_claim :
    claim_scopes (string (codes "openid ask"))
    ≡ err (unknown_scopes (codes "jwt") (codes "openid" ∷ []))
unfolding text_eq text_lt is_space is_word to_lower lower strip_left strip_right strip starts_with
    contains join split_at split split_max_at split_max member decimal number insert_sorted
    sorted_set is_development auth_required override candidates tightest limits_for lookup insert
    next_entry prune incr bucket decide check enforce detail redis scope_names parse_scopes find_key
    append_key add_key add_fields add_entry add_entries parse_api_keys credential looks_like_jwt
    pieces_at words claim_scopes tenant token_principal authenticate_jwt authenticate_key placed
    authenticate admit require verify_auth_configuration
openid_claim = refl
