-- ===== src/Payment/Fake/Replays.antt =====
-- Many calls of Charge of internal/payment/fake_gateway.go, one after the other.
mod Tests
use order_processing_system.Base.{
  ℕ, ◌≤◌, ◌≡◌, ◌⊎◌, refl, inl, inr, Option, none, some, List, [], ◌∷◌, ap, arith, count_where,
  Bool-cases, Option-cases,
}
use order_processing_system.Models.{
  Text, Float64, text_eq, text_eq_refl, text_eq_sound, deadline_exceeded, ok, err,
}
use order_processing_system.Payment.Gateway.{ChargeRequest}
use order_processing_system.Payment.Fake.{
  Surroundings, FakeGateway, new_fake_gateway, lookup, charge, charged_as, charge-accepts,
  charge-keeps,
}

-- The money taken under a key.
abbrev pub entries : Text → FakeGateway → ℕ
entries key g = count_where (λ (e : Text × Text). text_eq e.0 key) g.charged

module _ (world : Surroundings) where
  abbrev pub charge_all : List ChargeRequest → FakeGateway → FakeGateway
  charge_all [] g = g
  charge_all (req ∷ reqs) g = charge_all reqs (charge world req g).1

  lookup-none :
      (key : Text) (ledger : List (Text × Text))
      → lookup key ledger ≡ none
      → count_where (λ (e : Text × Text). text_eq e.0 key) ledger ≡ 0
  lookup-none key [] e = refl
  lookup-none key ((k, txn) ∷ rest) e = elim (Bool-cases (text_eq k key)) [
    | inl hit ↦ ground (arith, hit, e)
    | inr miss ↦
        let later : lookup key rest ≡ none = ground (arith, miss, e) in
        ground (arith, miss, lookup-none key rest later)
  ]

  charge-once :
      (req : ChargeRequest) (key : Text) (g : FakeGateway)
      → entries key g ≤ 1
      → entries key (charge world req g).1 ≤ 1
  unfolding charge
  charge-once req key g h = elim (Option-cases (charged_as g req.idempotency_key)) [
    | inr (txn, taken) ↦ ground (arith, taken)
    | inl free ↦ elim (Bool-cases (text_eq req.idempotency_key key)) [
      | inr other ↦ ground (arith, free, other)
      | inl same ↦
          let here = text_eq_sound req.idempotency_key key same in
          let zero_entries = lookup-none req.idempotency_key g.charged free in
          ground (arith, free, same, here, zero_entries)
    ]
  ]

  charge_all-keeps :
      (reqs : List ChargeRequest) (g : FakeGateway) (key txn : Text)
      → charged_as g key ≡ some txn
      → charged_as (charge_all reqs g) key ≡ some txn
  charge_all-keeps [] g key txn h = h
  charge_all-keeps (req ∷ reqs) g key txn h =
      charge_all-keeps reqs (charge world req g).1 key txn (charge-keeps world req g key txn h)

  once_after :
      (reqs : List ChargeRequest) (g : FakeGateway) (key : Text)
      → entries key g ≤ 1
      → entries key (charge_all reqs g) ≤ 1
  once_after [] g key h = h
  once_after (req ∷ reqs) g key h =
      once_after reqs (charge world req g).1 key (charge-once req key g h)

  -- Whatever is asked of a new fake gateway, and however its calls end, it holds at most one charge
  -- under any key.
  pub charge_all-once :
      (low high rate : Float64) (reqs : List ChargeRequest) (key : Text)
      → entries key (charge_all reqs (new_fake_gateway world low high rate)) ≤ 1
  unfolding new_fake_gateway
  charge_all-once low high rate reqs key =
      once_after reqs (new_fake_gateway world low high rate) key (ground arith)

  replay :
      (req : ChargeRequest) (g : FakeGateway) (txn : Text)
      → charged_as g req.idempotency_key ≡ some txn
      → let (r, g') = charge world req g in
        ((r ≡ ok txn) ⊎ (r ≡ err deadline_exceeded)) × (g'.charged ≡ g.charged)
  unfolding charge
  replay req g txn h = elim (Bool-cases (world.expires g.calls)) [
    | inl late ↦ (inr (ground (arith, late)), ground (arith, late))
    | inr live ↦ (inl (ground (arith, live, h)), ground (arith, live, h))
  ]

  -- Once the fake gateway has charged a request, then after any further charges the same request is
  -- answered with the same transaction, or with the context's end, and takes no money.
  pub charge-replays :
      (req : ChargeRequest) (g : FakeGateway) (txn : Text) (reqs : List ChargeRequest)
      → (charge world req g).0 ≡ ok txn
      → let g' = charge_all reqs (charge world req g).1 in
        let (r, g'') = charge world req g' in
        ((r ≡ ok txn) ⊎ (r ≡ err deadline_exceeded)) × (g''.charged ≡ g'.charged)
  charge-replays req g txn reqs e =
      let g1 = (charge world req g).1 in
      let taken = charge-accepts world req g g1 txn (ap (λ r. (r, g1)) e) in
      replay req (charge_all reqs g1) txn (charge_all-keeps reqs g1 req.idempotency_key txn taken)
