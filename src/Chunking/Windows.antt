-- ===== src/Chunking/Windows.antt =====
-- Token windows (src/finance_rag/chunking/hierarchical.py). The tokenizer and the digest are
-- parameters.
use finance_rag.Prelude.{
  ℕ, zero, suc, ◌+◌, ◌-◌, Bool, false, ◌&&◌, ◌||◌, not, List, [], ◌∷◌, ◌++◌, if◌then◌else◌, ltb,
  leb, ◌==◌, length, drop, is_empty, keep,
}
use finance_rag.Text.{Text, codes, strip, starts_with}

-- The tokenizer `cl100k_base`, and `sha256(…).hexdigest()`.
pub record Tokenizer : Type 0 where
  pub encode : Text → List ℕ
  pub decode : List ℕ → Text
  pub sha256 : Text → Text

-- `buffer[-overlap:]` where `overlap > 0`, and no token otherwise
unfoldable pub last_tokens : ℕ → List ℕ → List ℕ
last_tokens overlap buffer = drop (length buffer - overlap) buffer

abbrev pub first_longer : ℕ → List Text → List Text
first_longer c [] = (c ∷ []) ∷ []
first_longer c (f ∷ fs) = (c ∷ f) ∷ fs

-- `piece.split(sep)`: the fields between the places of a separator
unfoldable pub split_on : ℕ → Text → Text → List Text
split_on zero sep s = s ∷ []
split_on (suc fuel) sep [] = [] ∷ []
split_on (suc fuel) sep (c ∷ s) =
    let behind = split_on fuel sep (drop (length sep) (c ∷ s)) in
    let rest = split_on fuel sep s in
    if starts_with sep (c ∷ s) then [] ∷ behind else first_longer c rest

-- The separators, from the widest to the narrowest.
abbrev pub separators : List Text
separators = codes "\n\n" ∷ codes "\n" ∷ codes ". " ∷ codes "; " ∷ codes ", " ∷ codes " " ∷ []

module _ (tk : Tokenizer) where
  unfoldable pub count_tokens : Text → ℕ
  count_tokens text = length (tk.encode text)

  -- One round of the loop over the separators.
  unfoldable pub split_long : ℕ → Text → List Text → List Text
  split_long chunk_size sep [] = []
  split_long chunk_size sep (p ∷ ps) =
      let rest = split_long chunk_size sep ps in
      if leb (count_tokens p) chunk_size
      then p ∷ rest
      else keep (λ f. not (is_empty (strip f))) (split_on (length p) sep p) ++ rest

  unfoldable pub split_rounds : ℕ → List Text → List Text → List Text
  split_rounds chunk_size [] pieces = pieces
  split_rounds chunk_size (sep ∷ seps) pieces =
      split_rounds chunk_size seps (split_long chunk_size sep pieces)

  -- A piece, with a space behind it unless it ends in a space or a line feed.
  unfoldable pub ends_blank : Text → Bool
  ends_blank [] = false
  ends_blank (c ∷ []) = c == b' ' || c == 10
  ends_blank (c ∷ d ∷ s) = ends_blank (d ∷ s)

  unfoldable pub piece_tokens : Text → List ℕ
  piece_tokens p = tk.encode (if ends_blank p then p else p ++ codes " ")

  -- The windows of the packing loop, as tokens.
  unfoldable pub pack : ℕ → ℕ → List ℕ → List (List ℕ) → List (List ℕ)
  pack chunk_size overlap buffer [] = if is_empty buffer then [] else buffer ∷ []
  pack chunk_size overlap buffer (p ∷ ps) =
      let fits = pack chunk_size overlap (buffer ++ p) ps in
      let full = pack chunk_size overlap (last_tokens overlap buffer ++ p) ps in
      if ltb chunk_size (length buffer + length p) && not (is_empty buffer)
      then buffer ∷ full
      else fits

  -- The windows as text, without the blank ones.
  unfoldable pub decoded : List (List ℕ) → List Text
  decoded [] = []
  decoded (w ∷ ws) =
      let rest = decoded ws in let p = strip (tk.decode w) in if is_empty p then rest else p ∷ rest

  unfoldable pub token_lists : List Text → List (List ℕ)
  token_lists [] = []
  token_lists (p ∷ ps) = piece_tokens p ∷ token_lists ps

  -- `recursive_token_split`
  unfoldable pub recursive_token_split : Text → ℕ → ℕ → List Text
  recursive_token_split text chunk_size overlap =
      let pieces = split_rounds chunk_size separators (text ∷ []) in
      if leb (count_tokens text) chunk_size
      then (if is_empty (strip text) then [] else text ∷ [])
      else decoded (pack chunk_size overlap [] (token_lists pieces))
