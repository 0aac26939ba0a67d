-- ===== src/Idempotency.antt =====
-- internal/idempotency/store.go: the store of idempotency keys. The interface is a record of its two
-- operations; what its comments promise is the record Exclusive, which the no-op store does not keep.
pub mod Redis
use order_processing_system.Base.{◌≡◌, Bool, true, false}
use order_processing_system.Base.Int.{ℤ}
use order_processing_system.Models.{Text, Result, ok}

pub record Store (S : Type 0) : Type 0 where
  pub reserve : Text → ℤ → S → Result Bool × S
  pub release : Text → S → Result (Unit {0}) × S

-- `held s key`: the key is claimed, and its time to live has not passed.
pub record Exclusive {S : Type 0} (store : Store S) : Type 0 where
  pub held : S → Text → Bool
  pub claims :
      (key : Text) (ttl : ℤ) (s : S)
      → (store.reserve key ttl s).0 ≡ ok true
      → held (store.reserve key ttl s).1 key ≡ true
  pub excludes :
      (key : Text) (ttl : ℤ) (s : S) → held s key ≡ true → (store.reserve key ttl s).0 ≡ ok false

-- noopStore
abbrev pub noop_store : Store (Unit {0})
noop_store = record { reserve = λ key ttl s. (ok true, s); release = λ key s. (ok tt, s) }
