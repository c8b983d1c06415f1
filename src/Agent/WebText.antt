-- ===== src/Agent/WebText.antt =====
-- `clean_web_text` (src/finance_rag/agent/roles.py).
use finance_rag.Prelude.{
  ℕ, zero, suc, Bool, true, false, ◌&&◌, not, Option, none, some, List, [], ◌∷◌, ◌++◌,
  if◌then◌else◌, ltb, ◌==◌, length, take, is_empty, any_of,
}
use finance_rag.Text.{Text, codes, is_space, is_digit, strip, lower, contains, join}
use finance_rag.Chunking.Structure.{splitlines}

-- A text up to the first place of a character, and what follows it.
unfoldable pub up_to_char : ℕ → Text → Option (Text × Text)
up_to_char c [] = none
up_to_char c (d ∷ s) =
    let rest = up_to_char c s in
    if d == c then some ([], s) else elim rest [ none ↦ none | some p ↦ some (d ∷ p.0, p.1) ]

-- Behind an opening bracket, `[^\]]*\]\([^)]*\)`: the label, and what follows the link
abbrev pub target_after : Text → Text → Option (Text × Text)
target_after label [] = none
target_after label (c ∷ s) =
    let closed = up_to_char b')' s in
    if c == b'(' then elim closed [ none ↦ none | some p ↦ some (label, p.1) ] else none

unfoldable pub link_after : Text → Option (Text × Text)
link_after s = elim (up_to_char b']' s) [ none ↦ none | some p ↦ target_after p.0 p.1 ]

abbrev pub image_at : Text → Option (Text × Text)
image_at [] = none
image_at (c ∷ []) = none
image_at (c ∷ d ∷ s) = let found = link_after s in if c == b'!' && d == b'[' then found else none

abbrev pub link_at : Text → Option (Text × Text)
link_at [] = none
link_at (c ∷ s) = let found = link_after s in if c == b'[' then found else none

-- `_MD_IMAGE.sub(" ", s)`; each round takes a character, so the length of the text is enough fuel
unfoldable pub drop_images : ℕ → Text → Text
drop_images zero s = s
drop_images (suc n) [] = []
drop_images (suc n) (c ∷ s) =
    let rest = drop_images n s in
    elim (image_at (c ∷ s)) [ none ↦ c ∷ rest | some p ↦ b' ' ∷ drop_images n p.1 ]

-- `_MD_LINK.sub(r"\1", s)`
unfoldable pub unlink : ℕ → Text → Text
unlink zero s = s
unlink (suc n) [] = []
unlink (suc n) (c ∷ s) =
    let rest = unlink n s in
    elim (link_at (c ∷ s)) [ none ↦ c ∷ rest | some p ↦ p.0 ++ unlink n p.1 ]

-- `_WS_RUN.sub(" ", s)`; the flag says that the character before was white space
unfoldable pub squeeze : Bool → Text → Text
squeeze within [] = []
squeeze within (c ∷ s) =
    let more = squeeze true s in
    let next = squeeze false s in
    if is_space c then (if within then more else b' ' ∷ more) else c ∷ next

abbrev pub chrome_markers : List Text
chrome_markers =
    codes "an official website of the united states government"
    ∷ codes "official websites use .gov"
    ∷ codes "secure .gov websites use https"
    ∷ codes "here's how you know"
    ∷ codes "skip to main content"
    ∷ codes "cookies on gov.uk"
    ∷ []

-- The lines that are kept.
unfoldable pub article_lines : List Text → List Text
article_lines [] = []
article_lines (l ∷ ls) =
    let rest = article_lines ls in
    let line = strip l in
    if is_empty line
    then rest
    else if any_of (λ m. contains m (lower line)) chrome_markers
    then rest
    else if ltb (length line) 25 && not (any_of is_digit line)
    then rest
    else line ∷ rest

-- `clean_web_text`
unfoldable pub clean_web_text : Text → Text → ℕ → Text
clean_web_text raw snippet limit =
    let unpictured = drop_images (length raw) raw in
    let text = unlink (length unpictured) unpictured in
    let body = strip (squeeze false (join (codes " ") (article_lines (splitlines text)))) in
    let lead = squeeze false (strip snippet) in
    take limit (if is_empty lead then body else lead ++ (codes "\n\n" ++ body))
