-- ===== src/Database/Frame.antt =====
-- A part of the tables that a query leaves as it is, and queries that change no table where they fail.
use order_processing_system.Base.{◌≡◌, refl, ◌∙◌, inl, inr, Option-cases}
use order_processing_system.Models.{Time, Error, Result, ok, err}
use order_processing_system.Database.{
  Db, Tables, Engine, Query, continue, ◌>>=◌, pure, fail, tick, send, settle, transaction,
}

-- `part` is what the query does not touch, a table or all tables but one say.
pub record Keeps {ℓ κ} {T : Type κ} (part : Tables → T) {A : Type ℓ} (m : Query A) : Type κ where
  pub keeps : (db : Db) → part (m db).1.tables ≡ part db.tables

module _ {κ} {T : Type κ} (part : Tables → T) where
  pub pure-Keeps {ℓ} : {A : Type ℓ} (a : A) → Keeps part (pure a)
  pure-Keeps a = record { keeps = λ db. refl }

  pub fail-Keeps {ℓ} : (A : Type ℓ) (e : Error) → Keeps part (fail {A = A} e)
  fail-Keeps A e = record { keeps = λ db. refl }

  continue-part {ℓ μ} :
      {A : Type ℓ} {B : Type μ} (p : Result A × Db) (f : A → Query B)
      → ((a : A) → Keeps part (f a))
      → part (continue p f).1.tables ≡ part p.1.tables
  continue-part (ok a, mid) f g = (g a).keeps mid
  continue-part (err e, mid) f g = refl

  pub >>=-Keeps {ℓ μ} :
      {A : Type ℓ} {B : Type μ} (m : Query A) (f : A → Query B)
      → Keeps part m
      → ((a : A) → Keeps part (f a))
      → Keeps part (m >>= f)
  >>=-Keeps m f h g = record { keeps = λ db. continue-part (m db) f g ∙ h.keeps db }

  pub send-Keeps {ℓ} :
      {A : Type ℓ} (engine : Engine) (statement : Time → Query A)
      → ((now : Time) → Keeps part (statement now))
      → Keeps part (send engine statement)
  send-Keeps engine statement h = record {
    keeps = λ db. elim (Option-cases (engine.fault db.calls)) [
      | inl fine ↦ rw (fine, send) ((h (engine.clock db.calls)).keeps (tick db))
      | inr (code, broken) ↦ rw (broken, send) refl
    ];
  }

  settle-part {ℓ} :
      {A : Type ℓ} (engine : Engine) (before : Tables) (p : Result A × Db)
      → part p.1.tables ≡ part before
      → part (settle engine before p).1.tables ≡ part before
  settle-part engine before (err e, mid) h = refl
  settle-part engine before (ok a, mid) h = elim (Option-cases (engine.fault mid.calls)) [
    | inl fine ↦ rw (fine, settle) h
    | inr (code, broken) ↦ rw (broken, settle) refl
  ]

  pub transaction-Keeps {ℓ} :
      {A : Type ℓ} (engine : Engine) (body : Query A)
      → Keeps part body
      → Keeps part (transaction engine body)
  unfolding transaction
  transaction-Keeps engine body h = record {
    keeps = λ db. elim (Option-cases (engine.fault db.calls)) [
      | inl fine ↦
          rw (fine, transaction) (settle-part engine db.tables (body (tick db)) (h.keeps (tick db)))
      | inr (code, broken) ↦ rw (broken, transaction) refl
    ];
  }

-- Where the query fails the tables are as they were.
pub record Undoes {ℓ} {A : Type ℓ} (m : Query A) : Type ℓ where
  pub undoes : (db : Db) (e : Error) → (m db).0 ≡ err e → (m db).1.tables ≡ db.tables

pub pure-Undoes {ℓ} : {A : Type ℓ} (a : A) → Undoes (pure a)
pure-Undoes a = record { undoes = λ db e h. refl }

pub fail-Undoes {ℓ} : (A : Type ℓ) (e : Error) → Undoes (fail {A = A} e)
fail-Undoes A e = record { undoes = λ db x h. refl }

pub send-Undoes {ℓ} :
    {A : Type ℓ} (engine : Engine) (statement : Time → Query A)
    → ((now : Time) → Undoes (statement now))
    → Undoes (send engine statement)
send-Undoes engine statement h = record {
  undoes = λ db e failed. elim (Option-cases (engine.fault db.calls)) [
    | inl fine ↦
        rw (fine, send) ((h (engine.clock db.calls)).undoes (tick db) e (rw (fine, send) at failed))
    | inr (code, broken) ↦ rw (broken, send) refl
  ];
}

settle-tables {ℓ} :
    {A : Type ℓ} (engine : Engine) (before : Tables) (p : Result A × Db) (e : Error)
    → (settle engine before p).0 ≡ err e
    → (settle engine before p).1.tables ≡ before
settle-tables engine before (err x, mid) e h = refl
settle-tables engine before (ok a, mid) e h = elim (Option-cases (engine.fault mid.calls)) [
  | inl fine ↦ absurd (cc (rw (fine, settle) at h))
  | inr (code, broken) ↦ rw (broken, settle) refl
]

pub transaction-Undoes {ℓ} :
    {A : Type ℓ} (engine : Engine) (body : Query A) → Undoes (transaction engine body)
unfolding transaction
transaction-Undoes engine body = record {
  undoes = λ db e failed. elim (Option-cases (engine.fault db.calls)) [
    | inl fine ↦
        rw (fine, transaction)
          (settle-tables engine db.tables (body (tick db)) e (rw (fine, transaction) at failed))
    | inr (code, broken) ↦ rw (broken, transaction) refl
  ];
}

continue-tables {ℓ κ} :
    {A : Type ℓ} {B : Type κ} (before : Tables) (p : Result A × Db) (f : A → Query B) (e : Error)
    → p.1.tables ≡ before
    → ((a : A) → Undoes (f a))
    → (continue p f).0 ≡ err e
    → (continue p f).1.tables ≡ before
continue-tables before (ok a, mid) f e same h failed = (h a).undoes mid e failed ∙ same
continue-tables before (err x, mid) f e same h failed = same

-- Reads in front of a write.
pub >>=-Undoes {ℓ κ} :
    {A : Type ℓ} {B : Type κ} (m : Query A) (f : A → Query B)
    → Keeps (λ t. t) m
    → ((a : A) → Undoes (f a))
    → Undoes (m >>= f)
>>=-Undoes m f reads h = record {
  undoes = λ db e failed. continue-tables db.tables (m db) f e (reads.keeps db) h failed;
}

continue-pure-tables {ℓ κ} :
    {A : Type ℓ} {B : Type κ} (before : Tables) (p : Result A × Db) (f : A → B) (e : Error)
    → ((x : Error) → p.0 ≡ err x → p.1.tables ≡ before)
    → (continue p (λ a. pure (f a))).0 ≡ err e
    → (continue p (λ a. pure (f a))).1.tables ≡ before
continue-pure-tables before (ok a, mid) f e h failed = absurd cc
continue-pure-tables before (err x, mid) f e h failed = h x refl

-- A write whose row is only converted.
pub pure_after-Undoes {ℓ κ} :
    {A : Type ℓ} {B : Type κ} (m : Query A) (f : A → B) → Undoes m → Undoes (m >>= λ a. pure (f a))
pure_after-Undoes m f h = record {
  undoes = λ db e failed. continue-pure-tables db.tables (m db) f e (h.undoes db) failed;
}
