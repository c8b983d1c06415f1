-- ===== src/Chunking/Tests.antt =====
-- A small document with a table, and the theorems applied to it.
use finance_rag.Prelude.{◌≡◌, refl, ◌⊎◌, true, false, List, [], ◌∷◌, All}
use finance_rag.Config.{Settings, defaults}
use finance_rag.Models.{Chunk, no_metadata}
use finance_rag.Chunking.Runs.{lines_of, IsUniform, Alternates, flushes-runs}
use finance_rag.Chunking.Indices.{IsNumbered, Parented, chunk_document-Parented}
use finance_rag.Text.{
  Text, codes, text_eq, is_space, strip_left, strip_right, strip, starts_with, join, split_at,
}
use finance_rag.Text.Decimal.{decimal, number}
use finance_rag.Chunking.Structure.{
  lines_from, splitlines, ends_with_bar, is_table_line, flushes, segments_of, split_off_tables,
  hashes_then_space, is_heading, parts_from, drop_hashes, line_and_rest, section_of, sections_of,
  split_by_structure,
}
use finance_rag.Chunking.Windows.{
  Tokenizer, last_tokens, split_on, count_tokens, split_long, split_rounds, ends_blank,
  piece_tokens, pack, decoded, token_lists, recursive_token_split,
}
use finance_rag.Chunking.Document.{
  DocumentMeta, chunk_id, parent_chunk, child_chunk, as_text, child_texts, emit_children,
  emit_section, emit_sections, chunk_document, chunk_corpus,
}

-- One token for each character.
abbrev letters : Tokenizer
letters = record { encode = λ t. t; decode = λ t. t; sha256 = λ t. t }

abbrev page : Text
page = codes "# Rates\nSee below.\n|a|b|\n|1|2|\nEnd."

abbrev guide : DocumentMeta
guide = record { doc_id = codes "d"; metadata = no_metadata }

contents : List Chunk → List Text
contents [] = []
contents (c ∷ cs) = c.content ∷ contents cs

abbrev narrow : Settings
narrow = record defaults { chunk_size = 12; chunk_overlap = 2 }

page_chunks :
    contents (chunk_document letters narrow page guide)
    ≡ codes "See below.\n|a|b|\n|1|2|\nEnd."
      ∷ codes "See below."
      ∷ codes "|a|b|\n|1|2|"
      ∷ codes "End."
      ∷ []
unfolding text_eq is_space strip_left strip_right strip starts_with join split_at decimal number
    lines_from splitlines ends_with_bar is_table_line flushes segments_of split_off_tables
    hashes_then_space is_heading parts_from drop_hashes line_and_rest section_of sections_of
    split_by_structure last_tokens split_on count_tokens split_long split_rounds ends_blank
    piece_tokens pack decoded token_lists recursive_token_split chunk_id parent_chunk child_chunk
    as_text child_texts emit_children emit_section emit_sections chunk_document chunk_corpus
    contents
page_chunks = refl

flushes-runs_example :
    (lines_of (flushes false [] (splitlines page)) ≡ splitlines page)
    × All IsUniform (flushes false [] (splitlines page))
    × (Alternates false (flushes false [] (splitlines page))
        ⊎ Alternates true (flushes false [] (splitlines page)))
flushes-runs_example = flushes-runs page

chunk_document-Parented_example :
    IsNumbered 0 (chunk_document letters narrow page guide)
    × All
        (Parented letters (split_by_structure page) (chunk_document letters narrow page guide))
        (chunk_document letters narrow page guide)
chunk_document-Parented_example = chunk_document-Parented letters guide narrow page
