-- ===== src/Tries/Store.antt =====
-- crates/arity-tries/src/store.rs, memory.rs and testing.rs: what a store over the edges of the
-- in-memory store does besides. `read` and `materialize` change the state of the store, and may
-- fail; when they fail, they leave the edge as it is.
use arity_arrays.Common.{ℕ, suc, Option, none, some, ◌==◌, if◌then◌else◌}

-- A `Result` of a store.
pub data Outcome (E A : Type 0) : Type 0 where
  ok : A → Outcome E A
  err : E → Outcome E A

-- The state afterwards, and the error, if any.
pub record Store (S E : Type 0) : Type 0 where
  pub read : S → S × Option E
  pub materialize : S → S × Option E

-- `InMemory`, whose errors are impossible.
abbrev pub in_memory : Store Unit ⊥
in_memory = record { read = λ s. (s, none); materialize = λ s. (s, none) }

pub record Failing : Type 0 where
  pub reads : ℕ
  pub fail_read_at : ℕ
  pub materializes : ℕ
  pub fail_materialize_at : ℕ

pub data FailingError : Type 0 where
  read_error materialize_error : FailingError

unfoldable pub failing_read : Failing → Failing × Option FailingError
failing_read s =
    let s' = record s { reads = suc s.reads } in
    (s', if s'.reads == s.fail_read_at then some FailingError.read_error else none)

unfoldable pub failing_materialize : Failing → Failing × Option FailingError
failing_materialize s =
    let s' = record s { materializes = suc s.materializes } in
    (
      s',
      if s'.materializes == s.fail_materialize_at
          then some FailingError.materialize_error
          else none,
    )

abbrev pub failing : Store Failing FailingError
failing = record { read = failing_read; materialize = failing_materialize }

-- `Failing::new`
abbrev pub new : ℕ → ℕ → Failing
new fail_read_at fail_materialize_at = record {
  reads = 0;
  fail_read_at = fail_read_at;
  materializes = 0;
  fail_materialize_at = fail_materialize_at;
}
