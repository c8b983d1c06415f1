-- ===== src/Chunking/Structure.antt =====
-- Lines, tables and sections of a text (src/finance_rag/chunking/hierarchical.py).
use finance_rag.Prelude.{
  ℕ, zero, suc, Bool, true, false, ◌&&◌, ◌||◌, not, Option, none, some, List, [], ◌∷◌, ◌++◌,
  if◌then◌else◌, leb, ◌==◌, get_or, is_empty,
}
use finance_rag.Text.{Text, codes, is_space, strip, strip_left, join}

-- The end of a line for `str.splitlines`.
abbrev pub is_break : ℕ → Bool
is_break c =
    (leb 10 c && leb c 13) || (leb 28 c && leb c 30) || c == 0x85 || c == 0x2028 || c == 0x2029

abbrev pub line_before : Option Text → List Text → List Text
line_before none ls = ls
line_before (some l) ls = l ∷ ls

-- The first line, if any character is left, and the lines behind it; `cr` says that the character
-- before was a carriage return, whose line feed belongs to it.
unfoldable pub lines_from : Bool → Text → Option Text × List Text
lines_from cr [] = (none, [])
lines_from cr (c ∷ s) =
    let (swallowed, swallowed_rest) = lines_from false s in
    let (l, ls) = lines_from (c == 13) s in
    if cr && c == 10
    then (swallowed, swallowed_rest)
    else if is_break c
    then (some [], line_before l ls)
    else (some (c ∷ get_or l []), ls)

-- `text.splitlines()`
unfoldable pub splitlines : Text → List Text
splitlines s = let (l, ls) = lines_from false s in line_before l ls

-- `_TABLE_LINE.match(line)`
unfoldable pub ends_with_bar : Text → Bool
ends_with_bar [] = false
ends_with_bar (c ∷ []) = c == b'|'
ends_with_bar (c ∷ d ∷ s) = ends_with_bar (d ∷ s)

abbrev pub bar_and : Text → Bool
bar_and [] = false
bar_and (c ∷ s) = c == b'|' && ends_with_bar s

unfoldable pub is_table_line : Text → Bool
unfolding strip
is_table_line line = bar_and (strip line)

-- `a == b`, of two flags
abbrev pub same_flag : Bool → Bool → Bool
same_flag true b = b
same_flag false b = not b

-- The loop of `split_off_tables`: the buffers that it flushes, each with its flag.
unfoldable pub flushes : Bool → List Text → List Text → List (Bool × List Text)
flushes in_table buffer [] = if is_empty buffer then [] else (in_table, buffer) ∷ []
flushes in_table buffer (line ∷ lines) =
    let same = flushes in_table (buffer ++ (line ∷ [])) lines in
    let other = flushes (is_table_line line) (line ∷ []) lines in
    if same_flag (is_table_line line) in_table
    then same
    else if is_empty buffer
    then other
    else (in_table, buffer) ∷ other

-- `split_off_tables`: the flushed lines as text, without the blank ones
unfoldable pub segments_of : List (Bool × List Text) → List (Bool × Text)
segments_of [] = []
segments_of (r ∷ rs) =
    let rest = segments_of rs in
    let body = strip (join (codes "\n") r.1) in if is_empty body then rest else (r.0, body) ∷ rest

unfoldable pub split_off_tables : Text → List (Bool × Text)
split_off_tables text = segments_of (flushes false [] (splitlines text))

-- A heading begins here: one to six `#`, and white space.
unfoldable pub hashes_then_space : ℕ → Text → Bool
hashes_then_space n [] = false
hashes_then_space zero (c ∷ s) = is_space c
hashes_then_space (suc n) (c ∷ s) =
    let rest = hashes_then_space n s in if c == b'#' then rest else is_space c

unfoldable pub is_heading : Text → Bool
is_heading [] = false
is_heading (c ∷ s) = c == b'#' && hashes_then_space 5 s

-- `SECTION_SPLIT_RE.split(text)`: a first part, and the ones behind a line feed before a heading
unfoldable pub parts_from : Text → Text × List Text
parts_from [] = ([], [])
parts_from (c ∷ s) =
    let (p, ps) = parts_from s in if c == 10 && is_heading s then ([], p ∷ ps) else (c ∷ p, ps)

-- A heading's line behind its marks and the white space after them, and what follows the line.
unfoldable pub drop_hashes : Text → Text
drop_hashes [] = []
drop_hashes (c ∷ s) = if c == b'#' then drop_hashes s else c ∷ s

unfoldable pub line_and_rest : Text → Text × Text
line_and_rest [] = ([], [])
line_and_rest (c ∷ s) = let (l, r) = line_and_rest s in if c == 10 then ([], c ∷ s) else (c ∷ l, r)

-- A part with its title, if it begins with a heading.
unfoldable pub section_of : Text → Option Text × Text
section_of part =
    let (title, rest) = line_and_rest (strip_left (drop_hashes part)) in
    let body = strip rest in
    if is_heading part
    then (some (strip title), if is_empty body then part else body)
    else (none, part)

unfoldable pub sections_of : List Text → List (Option Text × Text)
sections_of [] = []
sections_of (p ∷ ps) =
    let rest = sections_of ps in
    let part = strip p in if is_empty part then rest else section_of part ∷ rest

-- `split_by_structure`
unfoldable pub split_by_structure : Text → List (Option Text × Text)
split_by_structure text =
    let (p, ps) = parts_from (strip text) in
    let sections = sections_of (p ∷ ps) in
    if is_empty sections then (none, strip text) ∷ [] else sections
