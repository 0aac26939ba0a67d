-- ===== src/Payment/Fake/Replays/Tests.antt =====
-- Three charges of the fake gateway of internal/payment/fake_gateway.go.
use order_processing_system.Base.{
  ◌≤◌, ◌≡◌, ◌⊎◌, refl, [], ◌∷◌, ◌++◌, ltb, codes, ◌==◌, if◌then◌else◌,
}
use order_processing_system.Models.{deadline_exceeded, ok, err}
use order_processing_system.Payment.Gateway.{ChargeRequest}
use order_processing_system.Payment.Fake.{Surroundings, FakeGateway, new_fake_gateway, charge}
use order_processing_system.Payment.Fake.Replays.{
  entries, charge_all, charge_all-once, charge-replays,
}

-- The second call is late.
abbrev luck : Surroundings
luck = record {
  expires = λ n. n == 1;
  draw = λ n. if n == 2 then 1 else 8;
  uuid = λ n. n ∷ [];
  less = ltb;
}

abbrev request : ChargeRequest
request = record { idempotency_key = 65 ∷ []; order_id = 1; amount = 20 }

abbrev another : ChargeRequest
another = record { idempotency_key = 66 ∷ []; order_id = 2; amount = 5 }

abbrev fresh : FakeGateway
unfolding new_fake_gateway
fresh = new_fake_gateway luck 0 10 3

request_charged : (charge luck request fresh).0 ≡ ok (codes "txn_" ++ (0 ∷ []))
unfolding charge fresh
request_charged = refl

charge_all-once_example :
    entries
      (65 ∷ [])
      (charge_all luck (request ∷ another ∷ request ∷ []) (new_fake_gateway luck 0 10 3))
    ≤ 1
charge_all-once_example = charge_all-once luck 0 10 3 (request ∷ another ∷ request ∷ []) (65 ∷ [])

charge-replays_example :
    let g = charge_all luck (another ∷ another ∷ []) (charge luck request fresh).1 in
    (((charge luck request g).0 ≡ ok (codes "txn_" ++ (0 ∷ [])))
      ⊎ ((charge luck request g).0 ≡ err deadline_exceeded))
    × ((charge luck request g).1.charged ≡ g.charged)
charge-replays_example =
    charge-replays luck request fresh (codes "txn_" ++ (0 ∷ [])) (another ∷ another ∷ [])
      request_charged
