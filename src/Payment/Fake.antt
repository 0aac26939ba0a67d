-- ===== src/Payment/Fake.antt =====
-- internal/payment/fake_gateway.go. The latency against the context, the random draw and the fresh
-- transaction id of each call are parameters.
pub mod Replays
use order_processing_system.Base.{
  ℕ, suc, Bool, false, ◌≡◌, Option, none, some, List, [], ◌∷◌, ◌++◌, if◌then◌else◌, arith, codes,
}
use order_processing_system.Models.{
  Text, Float64, text_eq, text_eq_refl, text_eq_sound, Error, deadline_exceeded, transient_failure,
  Result, ok, err,
}
use order_processing_system.Payment.Gateway.{ChargeRequest, Gateway}

-- At the n-th call: whether the context ends before the latency has passed, the number drawn from
-- the generator, and the fresh uuid. `less` is `<` on float64.
pub record Surroundings : Type 0 where
  pub expires : ℕ → Bool
  pub draw : ℕ → Float64
  pub uuid : ℕ → Text
  pub less : Float64 → Float64 → Bool

pub record FakeGateway : Type 0 where
  pub failure_rate : Float64
  pub charged : List (Text × Text)
  pub calls : ℕ

abbrev pub lookup : Text → List (Text × Text) → Option Text
lookup key [] = none
lookup key ((k, txn) ∷ rest) = if text_eq k key then some txn else lookup key rest

-- NewFakeGateway clamps the rate to [0, 1]; `low` and `high` are those two numbers.
pub new_fake_gateway : Surroundings → Float64 → Float64 → Float64 → FakeGateway
new_fake_gateway world low high rate =
    let raised = if world.less rate low then low else rate in
    record {
      failure_rate = if world.less high raised then high else raised;
      charged = [];
      calls = 0;
    }

-- The part of Charge under the lock.
abbrev charge_locked : Surroundings → ChargeRequest → ℕ → FakeGateway → Result Text × FakeGateway
charge_locked world req n g = elim (lookup req.idempotency_key g.charged) [
  | some txn ↦ (ok txn, g)
  | none ↦
      if world.less (world.draw n) g.failure_rate
      then (err (transient_failure req.order_id), g)
      else (
        ok (codes "txn_" ++ world.uuid n),
        record g { charged = (req.idempotency_key, codes "txn_" ++ world.uuid n) ∷ g.charged },
      )
]

unfoldable pub charge : Surroundings → ChargeRequest → FakeGateway → Result Text × FakeGateway
charge world req g =
    let next = record g { calls = suc g.calls } in
    if world.expires g.calls
    then (err deadline_exceeded, next)
    else charge_locked world req g.calls next

-- The ledger of the fake, as the interface reads it.
abbrev pub charged_as : FakeGateway → Text → Option Text
charged_as g key = lookup key g.charged

module _ (world : Surroundings) where
  pub charge-accepts :
      (req : ChargeRequest) (g g' : FakeGateway) (txn : Text)
      → charge world req g ≡ (ok txn, g')
      → charged_as g' req.idempotency_key ≡ some txn
  unfolding charge
  charge-accepts req g g' txn e = ground (arith, text_eq_refl req.idempotency_key)

  pub charge-keeps :
      (req : ChargeRequest) (g : FakeGateway) (key txn : Text)
      → charged_as g key ≡ some txn
      → charged_as (charge world req g).1 key ≡ some txn
  unfolding charge
  charge-keeps req g key txn h = ground (arith, text_eq_sound req.idempotency_key key)

  -- The fake keeps the promises of the interface.
  unfoldable pub fake_gateway : Gateway FakeGateway
  fake_gateway = record {
    charge = charge world;
    charged = charged_as;
    charge_accepts = charge-accepts;
    charge_keeps = charge-keeps;
  }
