-- ===== src/Services/Fulfillment/Sleeps.antt =====
-- How long the retry loop of internal/services/fulfillment.go waits.
use mathlib.Core.List.{append_assoc}
use order_processing_system.Base.{
  ℕ, zero, suc, ◌+◌, ◌-◌, ◌≤◌, ◌<◌, ◌≡◌, refl, sym, ◌∙◌, inl, inr, Option, none, some, List, [],
  ◌∷◌, ◌++◌, arith, All, All-append, length, length-append,
}
use order_processing_system.Base.Int.{ℤ, pos, pos_part}
use order_processing_system.Models.{Payment, Error, Result-cases}
use order_processing_system.Config.{WorkerConfig}
use order_processing_system.Payment.Gateway.{Gateway}
use order_processing_system.Services.Fulfillment.{
  Charging, charge_request, nap, charge_from, charge,
}
use order_processing_system.Services.Fulfillment.Backoff.{backoff, backoff_bounds}
use order_processing_system.Services.Fulfillment.Charge.{called, charge_from-ok, charge_from-err}

-- A delay between zero and the cap.
abbrev pub Within : ℕ → ℤ → Type 0
Within m d = (r : ℕ) × (d ≡ pos r) × (r ≤ m)

-- The loop slept `naps` times more than before, each within the cap.
pub record Slept (m naps : ℕ) (old new : List ℤ) : Type 0 where
  pub delays : List ℤ
  pub joined : new ≡ delays ++ old
  pub count : length delays ≤ naps
  pub bounded : All (Within m) delays

Slept-none : (m naps : ℕ) (old : List ℤ) → Slept m naps old old
Slept-none m naps old = record { delays = []; joined = refl; count = omega arith; bounded = tt }

Slept-more :
    (m naps : ℕ) (d : ℤ) (old new : List ℤ)
    → Within m d
    → Slept m naps (d ∷ old) new
    → Slept m (suc naps) old new
Slept-more m naps d old new w s = record {
  delays = s.delays ++ (d ∷ []);
  joined = s.joined ∙ sym (append_assoc s.delays (d ∷ []) old);
  count = omega (arith, s.count, length-append s.delays (d ∷ []));
  bounded = All-append (Within m) s.delays (d ∷ []) s.bounded (w, tt);
}

module _ {G : Type 0} (cfg : WorkerConfig) (random : ℕ → ℕ) (gw : Gateway G) (m rounds : ℕ)
    (cap : cfg.max_backoff ≡ pos m) (positive : 0 < m)
    (retries : cfg.max_retries ≡ pos rounds) where
  backoff-Within : (r attempt : ℕ) → Within m (backoff cfg r attempt)
  backoff-Within r attempt =
      let (d, n, c, b, p, q, low, high) = backoff_bounds cfg r attempt m cap positive in
      (n, b, omega arith)

  Slept-nap :
      (left attempt : ℕ) (c : Charging G) (new : List ℤ)
      → attempt + suc left ≡ suc rounds
      → Slept m (left - 1) (nap cfg random gw attempt c).slept new
      → Slept m left c.slept new
  Slept-nap zero attempt c new h s =
      let still : (nap cfg random gw attempt c).slept ≡ c.slept = ground (arith, retries) in
      rw still at s
  Slept-nap (suc left) attempt c new h s =
      let more : (nap cfg random gw attempt c).slept
          ≡ backoff cfg (random attempt) attempt ∷ c.slept =
        ground (arith, retries) in
      let s' = rw more at s in
      let fewer : suc left - 1 ≡ left = omega arith in
      Slept-more m left (backoff cfg (random attempt) attempt) c.slept new
        (backoff-Within (random attempt) attempt) (rw fewer at s')

  charge_from-Slept :
      (left attempt : ℕ) (last : Option Error) (pay : Payment) (c : Charging G)
      → attempt + left ≡ suc rounds
      → Slept m (left - 1) c.slept (charge_from cfg random gw left attempt last pay c).1.slept
  charge_from-Slept zero attempt last pay c h = unfold charge_from in (Slept-none m _ c.slept)
  charge_from-Slept (suc left) attempt last pay c h =
      elim (Result-cases (gw.charge (charge_request pay) c.gateway).0) [
        | inl (t, e) ↦
            rw (charge_from-ok cfg random gw left attempt last pay c e) (Slept-none m _ c.slept)
        | inr (x, e) ↦ rw (charge_from-err cfg random gw left attempt last pay c e) (
            let fewer : suc left - 1 ≡ left = omega arith in
            rw fewer (
              Slept-nap left attempt (called cfg random gw pay c) _ h (
                charge_from-Slept left (suc attempt) (some x) pay
                  (nap cfg random gw attempt (called cfg random gw pay c)) (omega arith))))
      ]

  -- With a positive MaxBackoff, the retry loop sleeps at most MaxRetries - 1 times, and not at all
  -- if MaxRetries is zero, each time between zero and MaxBackoff.
  pub charge-Slept :
      (pay : Payment) (c : Charging G)
      → Slept m (rounds - 1) c.slept (charge cfg random gw pay c).1.slept
  unfolding charge
  charge-Slept pay c =
      let count : pos_part cfg.max_retries ≡ rounds = rw retries refl in
      rw count (charge_from-Slept rounds 1 none pay c (omega arith))
