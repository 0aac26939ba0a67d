-- ===== src/Database/Success.antt =====
-- Queries that succeed on every database where no call fails.
use order_processing_system.Base.{ℕ, ◌≡◌, refl, ap, ◌∙◌, none}
use order_processing_system.Models.{Time, ok}
use order_processing_system.Database.{
  Db, Engine, Query, continue, ◌>>=◌, pure, tick, send, settle, transaction,
}

-- No call fails.
abbrev pub Faultless : Engine → Type 0
Faultless engine = (n : ℕ) → engine.fault n ≡ none

pub record Succeeds {ℓ} {A : Type ℓ} (m : Query A) : Type ℓ where
  pub succeeds : (db : Db) → (a : A) × (after : Db) × (m db ≡ (ok a, after))

pub pure-Succeeds {ℓ} : {A : Type ℓ} (a : A) → Succeeds (pure a)
pure-Succeeds a = record { succeeds = λ db. (a, db, refl) }

pub >>=-Succeeds {ℓ κ} :
    {A : Type ℓ} {B : Type κ} (m : Query A) (f : A → Query B)
    → Succeeds m
    → ((a : A) → Succeeds (f a))
    → Succeeds (m >>= f)
>>=-Succeeds m f h g = record {
  succeeds = λ db.
      let (a, mid, e) = h.succeeds db in
      let (b, after, e') = (g a).succeeds mid in (b, after, ap (λ p. continue p f) e ∙ e');
}

module _ (engine : Engine) (fine : Faultless engine) where
  pub send-Succeeds {ℓ} :
      {A : Type ℓ} (statement : Time → Query A)
      → ((now : Time) → Succeeds (statement now))
      → Succeeds (send engine statement)
  send-Succeeds statement h = record {
    succeeds = λ db. rw (fine db.calls, send) ((h (engine.clock db.calls)).succeeds (tick db));
  }

  settle-ok {ℓ} :
      {A : Type ℓ} (db mid : Db) (a : A) → settle engine db.tables (ok a, mid) ≡ (ok a, tick mid)
  settle-ok db mid a = rw (fine mid.calls, settle) refl

  pub transaction-Succeeds {ℓ} :
      {A : Type ℓ} (body : Query A) → Succeeds body → Succeeds (transaction engine body)
  unfolding transaction
  transaction-Succeeds body h = record {
    succeeds = λ db.
        let (a, mid, e) = h.succeeds (tick db) in
        (
          a,
          tick mid,
          rw (fine db.calls, transaction) (ap (settle engine db.tables) e ∙ settle-ok db mid a),
        );
  }
