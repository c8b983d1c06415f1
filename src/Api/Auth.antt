-- ===== src/Api/Auth.antt =====
-- Authentication (src/finance_rag/api/auth.py). SHA-256 and the token library are parameters. A
-- set of scopes is a list; a raised exception is a value of `Failure`.
pub mod Gate
pub mod Keys
pub mod Access
pub mod Tests
use finance_rag.Prelude.{
  ℕ, suc, ◌≡◌, refl, ◌⊎◌, inl, inr, ◌+◌, Bool, true, false, ◌&&◌, ◌||◌, not, Option, none, some,
  List, [], ◌∷◌, ◌==◌, if◌then◌else◌, keep, length, is_empty, all_of, get_or, is_some,
}
use finance_rag.Text.{Text, codes, is_space, text_eq, strip, lower, split, split_max, member, join}
use finance_rag.Text.Sorting.{sorted_set}
use finance_rag.Config.{Settings, is_development, auth_required}
use finance_rag.Agent.Roles.{non_empty}
use finance_rag.Api.RateLimit.{Decision, Enforced, passed, too_many, Limiter, Pipeline, enforce}

-- `Scope.ALL`
abbrev pub all_scopes : List Text
all_scopes = codes "ask" ∷ codes "index" ∷ codes "read" ∷ codes "metrics" ∷ []

pub data Kind : Type 0 where
  api_key jwt : Kind

pub record Principal : Type 0 where
  pub org_id : Text
  pub key_id : Text
  pub scopes : List Text
  pub subject : Text
  pub kind : Kind

-- What is raised: a ValueError (the first five), a RuntimeError, an HTTPException by its status,
-- or what the token library raises beyond the cases that are caught.
pub data Failure : Type 0 where
  no_scopes : Text → Failure
  unknown_scopes : Text → List Text → Failure
  malformed : ℕ → Failure
  empty_field : ℕ → Failure
  same_secret : Text → Text → Failure
  unpinned_issuer nobody : Failure
  unauthorized : Text → Failure
  unavailable : Failure
  forbidden : List Text → Failure
  limited : Decision → Failure
  unexpected : Text → Failure

pub data Result (A : Type 0) : Type 0 where
  ok : A → Result A
  err : Failure → Result A

pub Result-cases :
    {A : Type 0} (x : Result A) → ((f : Failure) × (x ≡ err f)) ⊎ ((a : A) × (x ≡ ok a))
Result-cases (ok a) = inr (a, refl)
Result-cases (err f) = inl (f, refl)

-- `{s.strip().lower() for s in field.split("|") if s.strip()}`
unfoldable pub scope_names : List Text → List Text
scope_names [] = []
scope_names (s ∷ ss) =
    let rest = scope_names ss in if is_empty (strip s) then rest else lower (strip s) ∷ rest

-- `_parse_scopes`
unfoldable pub parse_scopes : Text → Text → Result (List Text)
parse_scopes field key_id =
    let names = scope_names (split b'|' field) in
    let unknown = keep (λ s. not (member s all_scopes)) names in
    if is_empty names
    then err (no_scopes key_id)
    else if member (codes "*") names
    then ok all_scopes
    else if not (is_empty unknown)
    then err (unknown_scopes key_id (sorted_set unknown))
    else ok names

-- The table of digests, in the order of insertion.
abbrev pub KeyTable : Type 0
KeyTable = List (Text × Principal)

-- `table.get(digest)`
unfoldable pub find_key : Text → KeyTable → Option Principal
find_key d [] = none
find_key d ((e, p) ∷ t) = if text_eq d e then some p else find_key d t

-- `Principal(org_id=…, key_id=…, scopes=…)`, whose subject becomes the key id
abbrev pub key_principal : Text → Text → List Text → Principal
key_principal org key_id scopes = record {
  org_id = org;
  key_id = key_id;
  scopes = scopes;
  subject = key_id;
  kind = api_key;
}

unfoldable pub append_key : KeyTable → Text → Principal → KeyTable
append_key [] d p = (d, p) ∷ []
append_key (e ∷ t) d p = e ∷ append_key t d p

module _ (digest : Text → Text) where
  -- The stripped fields of an entry.
  unfoldable pub add_key : ℕ → KeyTable → Text → Text → Text → Text → Result KeyTable
  add_key position t key_id org scope_field secret =
      let scopes = parse_scopes scope_field key_id in
      if is_empty key_id || is_empty org || is_empty secret
      then err (empty_field position)
      else elim (find_key (digest secret) t) [
        | some other ↦ err (same_secret other.key_id key_id)
        | none ↦ elim scopes [
          | err e ↦ err e
          | ok names ↦ ok (append_key t (digest secret) (key_principal org key_id names))
        ]
      ]

  -- One entry, split at its first three colons.
  unfoldable pub add_fields : ℕ → KeyTable → List Text → Result KeyTable
  add_fields position t (k ∷ o ∷ s ∷ x ∷ []) =
      add_key position t (strip k) (strip o) (strip s) (strip x)
  add_fields position t _ = err (malformed position)

  -- The body of the loop.
  unfoldable pub add_entry : ℕ → KeyTable → Text → Result KeyTable
  add_entry position t entry =
      if is_empty (strip entry)
      then ok t
      else add_fields position t (split_max b':' 3 (strip entry))

  unfoldable pub add_entries : ℕ → KeyTable → List Text → Result KeyTable
  add_entries position t [] = ok t
  add_entries position t (e ∷ es) = elim (add_entry position t e) [
    | err f ↦ err f
    | ok u ↦ add_entries (suc position) u es
  ]

  unfoldable pub parse_api_keys : Text → Result KeyTable
  parse_api_keys raw = add_entries 1 [] (split b',' raw)

-- `_credential`
unfoldable pub credential : Option Text → Option Text
credential authorization = elim (non_empty authorization) [
  | none ↦ none
  | some header ↦ elim (split_max b' ' 1 header) [
    | [] ↦ none
    | scheme ∷ values ↦
        let value : Text = elim values [ [] ↦ [] | v ∷ vs ↦ v ] in
        if text_eq (lower (strip scheme)) (codes "bearer")
        then non_empty (some (strip value))
        else none
  ]
]

-- `_looks_like_jwt`: two dots, and three segments that are not empty
unfoldable pub looks_like_jwt : Text → Bool
looks_like_jwt s =
    length (keep (λ c. c == b'.') s) == 2 && all_of (λ part. not (is_empty part)) (split b'.' s)

-- The text cut at each white space, a first piece and the ones behind it.
unfoldable pub pieces_at : Text → Text × List Text
pieces_at [] = ([], [])
pieces_at (c ∷ s) = let (t, ts) = pieces_at s in if is_space c then ([], t ∷ ts) else (c ∷ t, ts)

-- `s.split()`: the runs of characters that are no white space
unfoldable pub words : Text → List Text
words s = let (t, ts) = pieces_at s in keep (λ w. not (is_empty w)) (t ∷ ts)

-- A claim that is absent or null, a string, or a list of values as `str` spells them.
pub data Claim : Type 0 where
  absent : Claim
  string : Text → Claim
  values : List Text → Claim

-- `_claim_scopes`
unfoldable pub claim_scopes : Claim → Result (List Text)
claim_scopes claim =
    let read = λ (names : List Text).
      if is_empty (join (codes "|") names)
      then ok []
      else parse_scopes (join (codes "|") names) (codes "jwt") in
    elim claim [ absent ↦ ok [] | string s ↦ read (words s) | values vs ↦ read vs ]
