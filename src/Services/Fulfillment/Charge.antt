-- ===== src/Services/Fulfillment/Charge.antt =====
-- The retry loop `charge` of internal/services/fulfillment.go against any gateway that keeps its
-- promises.
use order_processing_system.Base.{
  ℕ, zero, suc, ◌<◌, ◌≡◌, ◌≢◌, refl, ap, ◌∙◌, inl, inr, Option, none, some, [], arith,
}
use order_processing_system.Base.Int.{pos_part}
use order_processing_system.Models.{Text, Payment, Error, Result, ok, err, Result-cases}
use order_processing_system.Config.{WorkerConfig}
use order_processing_system.Payment.Gateway.{Gateway}
use order_processing_system.Services.Fulfillment.{
  Charging, charge_request, nap, charge_from, charge,
}

module _ {G : Type 0} (cfg : WorkerConfig) (random : ℕ → ℕ) (gw : Gateway G) where
  -- A success means that the provider has the money under the payment's key. An error says nothing.
  abbrev pub ChargeOutcome : Payment → Result Text × Charging G → Type 0
  ChargeOutcome pay (ok txn, c) = gw.charged c.gateway pay.idempotency_key ≡ some txn
  ChargeOutcome pay (err e, c) = Unit

  nap-gateway : (attempt : ℕ) (c : Charging G) → (nap cfg random gw attempt c).gateway ≡ c.gateway
  nap-gateway attempt c = ground arith

  nap-charged :
      (attempt : ℕ) (c : Charging G) (key : Text)
      → gw.charged (nap cfg random gw attempt c).gateway key ≡ gw.charged c.gateway key
  nap-charged attempt c key = ap (λ (g : G). gw.charged g key) (nap-gateway attempt c)

  -- One call of the gateway.
  call-ok :
      (pay : Payment) (g : G) {txn : Text}
      → (gw.charge (charge_request pay) g).0 ≡ ok txn
      → gw.charged (gw.charge (charge_request pay) g).1 pay.idempotency_key ≡ some txn
  call-ok pay g {txn} e =
      let g' = (gw.charge (charge_request pay) g).1 in
      gw.charge_accepts (charge_request pay) g g' txn (ap (λ (r : Result Text). (r, g')) e)

  -- The state behind one call.
  abbrev pub called : Payment → Charging G → Charging G
  called pay c = record c { gateway = (gw.charge (charge_request pay) c.gateway).1 }

  pub charge_from-ok :
      (left attempt : ℕ) (last : Option Error) (pay : Payment) (c : Charging G) {txn : Text}
      → (gw.charge (charge_request pay) c.gateway).0 ≡ ok txn
      → charge_from cfg random gw (suc left) attempt last pay c ≡ (ok txn, called pay c)
  unfolding charge_from
  charge_from-ok left attempt last pay c e = rw (e, charge_from)

  pub charge_from-err :
      (left attempt : ℕ) (last : Option Error) (pay : Payment) (c : Charging G) {x : Error}
      → (gw.charge (charge_request pay) c.gateway).0 ≡ err x
      → charge_from cfg random gw (suc left) attempt last pay c
        ≡ charge_from cfg random gw left
            (suc attempt)
            (some x)
            pay
            (nap cfg random gw attempt (called pay c))
  unfolding charge_from
  charge_from-err left attempt last pay c e = rw (e, charge_from)

  charge_from-outcome :
      (left attempt : ℕ) (last : Option Error) (pay : Payment) (c : Charging G)
      → (left ≡ 0 → last ≢ none)
      → ChargeOutcome pay (charge_from cfg random gw left attempt last pay c)
  charge_from-outcome zero attempt none pay c h = absurd (h refl refl)
  charge_from-outcome zero attempt (some e) pay c h = unfold charge_from in tt
  charge_from-outcome (suc left) attempt last pay c h =
      elim (Result-cases (gw.charge (charge_request pay) c.gateway).0) [
        | inl (txn, e) ↦ rw (charge_from-ok left attempt last pay c e) (call-ok pay c.gateway e)
        | inr (x, e) ↦ rw (charge_from-err left attempt last pay c e) (
            charge_from-outcome left (suc attempt) (some x) pay
              (nap cfg random gw attempt (called pay c)) (λ _ q. cc))
      ]

  -- With at least one attempt allowed, a success of the retry loop means that the gateway holds the
  -- charge under the payment's key.
  pub charge-outcome :
      (pay : Payment) (c : Charging G)
      → 0 < pos_part cfg.max_retries
      → ChargeOutcome pay (charge cfg random gw pay c)
  unfolding charge
  charge-outcome pay c h =
      charge_from-outcome (pos_part cfg.max_retries) 1 none pay c (λ z. absurd (omega arith))

  -- What the provider has taken it keeps, whatever the loop does.
  charge_from-keeps :
      (left attempt : ℕ) (last : Option Error) (pay : Payment) (c : Charging G) (key txn : Text)
      → gw.charged c.gateway key ≡ some txn
      → gw.charged (charge_from cfg random gw left attempt last pay c).1.gateway key ≡ some txn
  charge_from-keeps zero attempt last pay c key txn h = unfold charge_from in h
  charge_from-keeps (suc left) attempt last pay c key txn h =
      let kept = gw.charge_keeps (charge_request pay) c.gateway key txn h in
      elim (Result-cases (gw.charge (charge_request pay) c.gateway).0) [
        | inl (t, e) ↦ rw (charge_from-ok left attempt last pay c e) kept
        | inr (x, e) ↦ rw (charge_from-err left attempt last pay c e) (
            charge_from-keeps left (suc attempt) (some x) pay
              (nap cfg random gw attempt (called pay c)) key txn
              (nap-charged attempt (called pay c) key ∙ kept))
      ]

  pub charge-keeps :
      (pay : Payment) (c : Charging G) (key txn : Text)
      → gw.charged c.gateway key ≡ some txn
      → gw.charged (charge cfg random gw pay c).1.gateway key ≡ some txn
  unfolding charge
  charge-keeps pay c = charge_from-keeps (pos_part cfg.max_retries) 1 none pay c

  -- With no attempt allowed the charge returns an empty success, and the gateway has not been
  -- asked.
  pub charge-no_attempts :
      (pay : Payment) (c : Charging G)
      → pos_part cfg.max_retries ≡ 0
      → charge cfg random gw pay c ≡ (ok [], c)
  unfolding charge charge_from
  charge-no_attempts pay c h = rw (h, charge, charge_from)
