-- ===== src/Payment/Gateway.antt =====
-- internal/payment/gateway.go: a request, and the interface with what its comments promise: a key
-- that was charged stays charged. An error says nothing: the provider may have the money.
use order_processing_system.Base.{ℕ, ◌≡◌, Option, some}
use order_processing_system.Models.{Text, Float64, Result, ok}

pub record ChargeRequest : Type 0 where
  pub idempotency_key : Text
  pub order_id : ℕ
  pub amount : Float64

-- A charge's result is the transaction's id. `charged g key` is the id under which the provider has
-- taken the money for `key`, if it has.
pub record Gateway (G : Type 0) : Type 0 where
  pub charge : ChargeRequest → G → Result Text × G
  pub charged : G → Text → Option Text
  pub charge_accepts :
      (req : ChargeRequest) (g g' : G) (txn : Text)
      → charge req g ≡ (ok txn, g')
      → charged g' req.idempotency_key ≡ some txn
  pub charge_keeps :
      (req : ChargeRequest) (g : G) (key txn : Text)
      → charged g key ≡ some txn
      → charged (charge req g).1 key ≡ some txn
