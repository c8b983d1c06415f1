-- ===== src/Cache/Bump.antt =====
-- What a new corpus version does to the cache (src/finance_rag/cache/semantic_cache.py).
use finance_rag.Prelude.{
  ℕ, zero, suc, ◌≡◌, refl, sym, ap, ◌∙◌, inl, inr, false, Option, none, some, List, [], ◌∷◌, take,
  arith, Bool-cases,
}
use finance_rag.Text.{Text, text_eq}
use finance_rag.Text.Decimal.{decimal, number, number-decimal}
use finance_rag.Config.{Settings}
use finance_rag.Models.{Floats}
use finance_rag.Agent.Roles.{non_empty}
use finance_rag.Guardrails.Answerability.{returned}
use finance_rag.Cache.{
  plain, payload_of, Redis, IsRedis, Vectors, version_key, members_key, exact_key, hash_key,
  text_at, payload_at, corpus_version, bump_corpus_version, embedding_of, scan_entries, semantic,
  get, sought,
}
use finance_rag.Cache.Laws.{get-miss}

non_empty-ne : (t : Text) → ¬ (t ≡ []) → non_empty (some t) ≡ some t
non_empty-ne [] h = absurd (h refl)
non_empty-ne (c ∷ t) h = refl

decimal-ne : (n : ℕ) → ¬ (decimal n ≡ [])
unfolding number decimal
decimal-ne n e =
    let zeroed : n ≡ 0 = sym (number-decimal n) ∙ ap number e in
    let none_left : decimal 0 ≡ [] = sym (ap decimal zeroed) ∙ e in absurd (ground arith)

non_empty-decimal : (n : ℕ) → non_empty (some (decimal n)) ≡ some (decimal n)
non_empty-decimal n = non_empty-ne (decimal n) (decimal-ne n)

take-nil : (n : ℕ) → take {A = Text} n [] ≡ []
take-nil zero = refl
take-nil (suc n) = refl

module _ {F S : Type 0} (fl : Floats F) (st : Settings) (r : Redis F S) (v : Vectors F)
    (law : IsRedis r) where
  get-off :
      (threshold : F) (query : Text) (line : Option Text) (emb : Option (List F)) (t : S)
      → st.cache_enabled ≡ false
      → get fl st r v threshold query line emb (some t) ≡ returned none
  unfolding get
  get-off threshold query line emb t off = ground arith

  corpus_version-bump :
      (s : S)
      → corpus_version fl st r v (r.delete members_key (r.incr version_key s).1)
        ≡ decimal (r.incr version_key s).0
  unfolding corpus_version text_at text_eq
  corpus_version-bump s =
      let counted : r.get version_key (r.delete members_key (r.incr version_key s).1)
          ≡ some (plain (decimal (r.incr version_key s).0)) =
        law.get-delete_other version_key members_key (r.incr version_key s).1 refl
        ∙ law.get-incr version_key s in
      let named = non_empty-decimal (r.incr version_key s).0 in
      rw (counted, corpus_version, text_at, named) refl

  -- A payload in the exact layer is as it was before the new version.
  payload_at-bump :
      (k : Text) (s : S)
      → payload_at fl st r v (exact_key k) (r.delete members_key (r.incr version_key s).1)
        ≡ payload_at fl st r v (exact_key k) s
  unfolding payload_at text_eq
  payload_at-bump k s = ap payload_of (
      law.get-delete_other (exact_key k) members_key (r.incr version_key s).1 refl
      ∙ law.get-incr_other (exact_key k) version_key s refl)

  -- The semantic layer finds nothing.
  semantic-delete :
      (threshold : F) (x : List F) (s : S)
      → semantic fl st r v threshold x (r.delete members_key s) ≡ none
  unfolding semantic scan_entries
  semantic-delete threshold x s =
      rw (law.smembers-delete members_key s, semantic, take-nil st.cache_semantic_max_scan) refl

  -- A new corpus version forgets both layers: unless an entry was stored under the new version
  -- before, every question misses the cache, and keeps missing it until something is stored.
  get-bump :
      (threshold : F) (query : Text) (line : Option Text) (emb : Option (List F)) (x : List F)
      (s : S)
      → embedding_of fl st r v query emb ≡ returned x
      → payload_at fl st r v
          (exact_key (hash_key fl st r v query line (bump_corpus_version fl st r v (some s)).0))
          s
        ≡ none
      → get fl st r v threshold query line emb (bump_corpus_version fl st r v (some s)).1
        ≡ returned none
  unfolding bump_corpus_version
  get-bump threshold query line emb x s answered unused =
      let t = r.delete members_key (r.incr version_key s).1 in
      let absent =
        ap (λ w. payload_at fl st r v (exact_key (hash_key fl st r v query line w)) t)
          (corpus_version-bump s)
        ∙ (payload_at-bump (hash_key fl st r v query line (decimal (r.incr version_key s).0)) s
            ∙ unused) in
      elim (Bool-cases st.cache_enabled) [
        | inr off ↦ get-off threshold query line emb t off
        | inl on ↦
            get-miss fl st r v law threshold query line emb t on absent
            ∙ (ap (sought fl st r v threshold t) answered
                ∙ ap returned (semantic-delete threshold x (r.incr version_key s).1))
      ]
