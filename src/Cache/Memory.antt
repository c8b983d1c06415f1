-- ===== src/Cache/Memory.antt =====
-- A store made of functions, in the place of Redis, and vectors of one number: data for the tests.
use finance_rag.Prelude.{
  ℕ, ◌+◌, ◌*◌, refl, Option, none, some, List, [], ◌∷◌, if◌then◌else◌, ◌==◌, arith,
}
use finance_rag.Text.{Text, text_eq}
use finance_rag.Text.Laws.{text_eq_refl}
use finance_rag.Text.Decimal.{decimal}
use finance_rag.Guardrails.Answerability.{returned}
use finance_rag.Cache.{Value, plain, Redis, IsRedis, Vectors}

pub record Store : Type 0 where
  pub table : Text → Option (Value ℕ)
  pub sets : Text → List Text
  pub counts : Text → ℕ

abbrev pub empty_store : Store
empty_store = record { table = λ k. none; sets = λ k. []; counts = λ k. 0 }

abbrev pub memory : Redis ℕ Store
memory = record {
  get = λ k s. s.table k;
  setex = λ k ttl v s. record s { table = λ j. if text_eq j k then some v else s.table j };
  incr = λ k s. (
    s.counts k + 1,
    record s {
      counts = λ j. if text_eq j k then s.counts k + 1 else s.counts j;
      table = λ j. if text_eq j k then some (plain (decimal (s.counts k + 1))) else s.table j;
    },
  );
  delete = λ k s. record s {
    table = λ j. if text_eq j k then none else s.table j;
    sets = λ j. if text_eq j k then [] else s.sets j;
  };
  smembers = λ k s. s.sets k;
  sadd = λ k m s. record s { sets = λ j. if text_eq j k then m ∷ s.sets k else s.sets j };
}

pub memory-IsRedis : IsRedis memory
memory-IsRedis = record {
  get-setex = λ k ttl v s live. ground (arith, text_eq_refl k);
  get-setex_other = λ j k ttl v s e. ground arith;
  get-incr = λ k s. ground (arith, text_eq_refl k);
  get-incr_other = λ j k s e. ground arith;
  get-delete_other = λ j k s e. ground arith;
  get-sadd_other = λ j k m s e. refl;
  smembers-delete = λ k s. ground (arith, text_eq_refl k);
}

abbrev pub head_of : List ℕ → ℕ
head_of [] = 0
head_of (x ∷ xs) = x

abbrev pub plane : Vectors ℕ
plane = record {
  norm = λ a. 1;
  dot = λ a b. if head_of a == head_of b then 9 else 3;
  mul = λ a b. a * b;
  minus_one = 0;
  sha256 = λ t. t;
  embed_query = λ t. returned (5 ∷ []);
}
