-- ===== src/Cache/Tests.antt =====
-- Runs of the cache on a store made of functions, and the theorems applied to it.
use finance_rag.Prelude.{ℕ, ◌≡◌, refl, true, none, some, List, [], ◌∷◌, In, arith}
use finance_rag.Samples.{bits, answered}
use finance_rag.Text.{codes, text_eq, is_space, to_lower, strip, strip_left, strip_right, lower}
use finance_rag.Config.{defaults}
use finance_rag.Guardrails.Answerability.{returned}
use finance_rag.Cache.{
  serialize, deserialize, cosine, hash_key, text_at, vector_at, payload_at, corpus_version,
  embedding_of, scan_entries, semantic, get, set, store, index_entry,
}
use finance_rag.Cache.Memory.{empty_store, memory, memory-IsRedis, plane}
use finance_rag.Cache.Laws.{get-set}
use finance_rag.Cache.History.{setting, bumping, play, handed, Call}
use finance_rag.Cache.Served.{Serves, get-play}

get-set_example :
    get bits defaults memory plane 5
      (codes " QRE? ")
      none
      none
      (set bits defaults memory plane 7 (codes "qre?") answered none none (some empty_store)).0
    ≡ returned (some (record answered { cache_hit = true; cache_layer = some (codes "exact") }))
unfolding text_eq is_space to_lower strip strip_left strip_right lower
get-set_example =
    get-set bits defaults memory plane memory-IsRedis 5 (codes "qre?") (codes " QRE? ") none none
      none 7 answered empty_store refl (omega arith) refl refl

-- A question of one service line gets the answer of another one, by the semantic layer.
other_line :
    get bits defaults memory plane 5
      (codes "qre?")
      (some (codes "lifo"))
      none
      (set bits defaults memory plane 7
        (codes "qre?")
        answered
        (some (codes "rd"))
        none
        (some empty_store)).0
    ≡ returned (some (record answered { cache_hit = true; cache_layer = some (codes "semantic") }))
unfolding text_eq is_space to_lower strip strip_left strip_right lower serialize deserialize cosine
    hash_key text_at vector_at payload_at corpus_version embedding_of scan_entries semantic get set
    store index_entry
other_line = refl

abbrev calls : List (Call ℕ)
calls =
    setting 1 (codes "qre?") answered none none
    ∷ bumping
    ∷ setting 2 (codes "lifo?") answered none none
    ∷ []

get-play_example :
    Serves bits defaults memory plane memory-IsRedis
      (λ x. In x (handed calls))
      (get bits defaults memory plane 5
        (codes "lifo?")
        none
        none
        (play bits defaults memory plane calls (some empty_store)))
get-play_example =
    get-play bits defaults memory plane memory-IsRedis 5 calls empty_store (codes "lifo?") none none
      (omega arith) (λ k. refl)
