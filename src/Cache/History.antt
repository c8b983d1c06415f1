-- ===== src/Cache/History.antt =====
-- What the cache holds after any sequence of calls
-- (src/finance_rag/cache/semantic_cache.py).
use finance_rag.Prelude.{
  ℕ, ◌<◌, ◌≡◌, refl, sym, ap, ◌∙◌, subst, inl, inr, false, Option, none, some, List, [], ◌∷◌, All,
  length, length-append, arith, Bool-cases,
}
use finance_rag.Text.{Text, codes, text_eq}
use finance_rag.Text.Laws.{text_eq_sound}
use finance_rag.Config.{Settings}
use finance_rag.Models.{Floats, RagResponse}
use finance_rag.Guardrails.Answerability.{Attempt, returned, failed}
use finance_rag.Cache.{
  Payload, Value, plain, payload, vector, Redis, IsRedis, Vectors, version_key, members_key,
  exact_key, vec_key, payload_key, serialize, hash_key, corpus_version, bump_corpus_version,
  embedding_of, set, store, index_entry,
}
use finance_rag.Cache.Laws.{set-cases}

-- A call that changes the cache.
pub data Call (F : Type 0) : Type 0 where
  setting : ℕ → Text → RagResponse F → Option Text → Option (List F) → Call F
  bumping : Call F

-- The responses that were handed to `set`.
unfoldable pub handed : {F : Type 0} → List (Call F) → List (RagResponse F)
handed [] = []
handed (setting now query response line emb ∷ cs) = response ∷ handed cs
handed (bumping ∷ cs) = handed cs

pub exact_key-members : (k : Text) → text_eq (exact_key k) members_key ≡ false
unfolding text_eq
exact_key-members k = refl

pub payload_key-members : (k : Text) → text_eq (payload_key k) members_key ≡ false
payload_key-members k = elim (Bool-cases (text_eq (payload_key k) members_key)) [
  | inr e ↦ e
  | inl e ↦
      let same = ap length (text_eq_sound (payload_key k) members_key e) in
      absurd (omega (arith, same, length-append k (codes ":payload")))
]

module _ {F : Type 0} (P : RagResponse F → Type 0) where
  -- The response that a stored payload was made from.
  abbrev pub Origin : Payload F → Type 0
  Origin p =
      (x : RagResponse F) × P x
      × (x.refused ≡ false)
      × ((now : ℕ) × (p ≡ serialize now (codes "exact") x))

  abbrev pub Good : Value F → Type 0
  Good (plain t) = Unit
  Good (vector x) = Unit
  Good (payload p) = Origin p

  abbrev GoodAt : Option (Value F) → Type 0
  GoodAt none = Unit
  GoodAt (some x) = Good x

module _ {F S : Type 0} (fl : Floats F) (st : Settings) (r : Redis F S) (v : Vectors F) where
  -- The cache after these calls.
  unfoldable pub play : List (Call F) → Option S → Option S
  play [] o = o
  play (setting now query response line emb ∷ cs) o =
      play cs (set fl st r v now query response line emb o).0
  play (bumping ∷ cs) o = play cs (bump_corpus_version fl st r v o).1

module _ {F S : Type 0} (fl : Floats F) (st : Settings) (r : Redis F S) (v : Vectors F)
    (law : IsRedis r) (P : RagResponse F → Type 0) where
  -- Every payload in the store was made from a response with `P` that is no refusal.
  abbrev pub Known : S → Type 0
  Known s = (k : Text) (x : Value F) → text_eq k members_key ≡ false → r.get k s ≡ some x → Good P x

  abbrev pub KnownIn : Option S → Type 0
  KnownIn none = Unit
  KnownIn (some s) = Known s

  setex-Known :
      (j : Text) (ttl : ℕ) (x : Value F) (s : S)
      → 0 < ttl
      → Good P x
      → Known s
      → Known (r.setex j ttl x s)
  setex-Known j ttl x s live good known k y other at = elim (Bool-cases (text_eq k j)) [
    | inr e ↦ known k y other (sym (law.get-setex_other k j ttl x s e) ∙ at)
    | inl e ↦
        let same : some x ≡ some y =
          sym (law.get-setex j ttl x s live)
          ∙ (ap (λ i. r.get i (r.setex j ttl x s)) (sym (text_eq_sound k j e)) ∙ at) in
        subst (GoodAt P) same good
  ]

  index_entry-Known :
      (key : Text) (p : Payload F) (s : S) (emb : Attempt (List F))
      → 0 < st.cache_ttl_seconds
      → Origin P p
      → Known s
      → Known (index_entry fl st r v key (payload p) s emb).0
  unfolding index_entry
  index_entry-Known key p s (failed e) live good known = λ k y other at. known k y other at
  index_entry-Known key p s (returned x) live good known = λ k y other at.
      let ttl = st.cache_ttl_seconds in
      let s2 = r.setex (vec_key key) ttl (vector x) s in
      let s3 = r.setex (payload_key key) ttl (payload p) s2 in
      setex-Known (payload_key key) ttl (payload p) s2 live good
        (setex-Known (vec_key key) ttl (vector x) s live tt known) k y other
        (sym (law.get-sadd_other k members_key key s3 other) ∙ at)

  pub set-KnownIn :
      (now : ℕ) (query : Text) (response : RagResponse F) (line : Option Text)
      (emb : Option (List F)) (o : Option S)
      → 0 < st.cache_ttl_seconds
      → (response.refused ≡ false → P response)
      → KnownIn o
      → KnownIn (set fl st r v now query response line emb o).0
  unfolding set store
  set-KnownIn now query response line emb none live h known = tt
  set-KnownIn now query response line emb (some s) live h known =
      let s1 = (store fl st r v now query response line emb s).0 in
      let key = hash_key fl st r v query line (corpus_version fl st r v s) in
      let p = serialize now (codes "exact") response in
      let ttl = st.cache_ttl_seconds in
      elim (set-cases fl st r v law query now response line emb s) [
        | inl e ↦ subst KnownIn (sym e) known
        | inr (ok, e) ↦
            let good : Origin P p = (response, h ok, ok, (now, refl)) in
            subst KnownIn (sym e) (
              index_entry-Known key p (r.setex (exact_key key) ttl (payload p) s)
                (embedding_of fl st r v query emb) live good
                (setex-Known (exact_key key) ttl (payload p) s live good known))
      ]

  incr-Known : (s : S) → Known s → Known (r.incr version_key s).1
  incr-Known s known k y other at = elim (Bool-cases (text_eq k version_key)) [
    | inr e ↦ known k y other (sym (law.get-incr_other k version_key s e) ∙ at)
    | inl e ↦
        let same =
          sym (law.get-incr version_key s)
          ∙ (ap (λ i. r.get i (r.incr version_key s).1) (sym (text_eq_sound k version_key e))
              ∙ at) in
        subst (GoodAt P) same tt
  ]

  pub bump-KnownIn : (o : Option S) → KnownIn o → KnownIn (bump_corpus_version fl st r v o).1
  unfolding bump_corpus_version
  bump-KnownIn none known = tt
  bump-KnownIn (some s) known = λ k y other at.
      incr-Known s known k y other
        (sym (law.get-delete_other k members_key (r.incr version_key s).1 other) ∙ at)

  pub play-KnownIn :
      (cs : List (Call F)) (o : Option S)
      → 0 < st.cache_ttl_seconds
      → All P (handed cs)
      → KnownIn o
      → KnownIn (play fl st r v cs o)
  unfolding play handed
  play-KnownIn [] o live h known = known
  play-KnownIn (setting now query response line emb ∷ cs) o live h known =
      play-KnownIn cs (set fl st r v now query response line emb o).0 live h.1
        (set-KnownIn now query response line emb o live (λ ok. h.0) known)
  play-KnownIn (bumping ∷ cs) o live h known =
      play-KnownIn cs (bump_corpus_version fl st r v o).1 live h (bump-KnownIn o known)
