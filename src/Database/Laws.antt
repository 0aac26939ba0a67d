-- ===== src/Database/Laws.antt =====
-- What a query that succeeded went through, how a transaction ends, and that sequences only grow.
use order_processing_system.Base.{◌≤◌, ◌≡◌, refl, inl, inr, Option-cases, arith}
use order_processing_system.Models.{Time, Error, Result, ok, err}
use order_processing_system.Database.{
  Db, Tables, Sequences, Engine, Query, continue, ◌>>=◌, pure, fail, tick, send, settle,
  transaction,
}

-- A chain that succeeded: its first part did, and then the rest from where that ended. What
-- follows is handed the two equations.
continue-eq-ok {ℓ κ μ} :
    {A : Type ℓ} {B : Type κ} {P : Type μ} (p : Result A × Db) (f : A → Query B) {b : B}
    {after : Db}
    → continue p f ≡ (ok b, after)
    → ((a : A) (mid : Db) → p ≡ (ok a, mid) → f a mid ≡ (ok b, after) → P)
    → P
continue-eq-ok (ok a, mid) f e use_parts = use_parts a mid refl e
continue-eq-ok (err x, mid) f e use_parts = absurd cc

pub >>=-eq-ok {ℓ κ μ} :
    {A : Type ℓ} {B : Type κ} {P : Type μ} (m : Query A) (f : A → Query B) (db : Db) {b : B}
    {after : Db}
    → (m >>= f) db ≡ (ok b, after)
    → ((a : A) (mid : Db) → m db ≡ (ok a, mid) → f a mid ≡ (ok b, after) → P)
    → P
>>=-eq-ok m f db e use_parts = continue-eq-ok (m db) f e use_parts

pub send-eq-ok {ℓ} :
    {A : Type ℓ} (engine : Engine) (statement : Time → Query A) (db : Db) {a : A} {after : Db}
    → send engine statement db ≡ (ok a, after)
    → statement (engine.clock db.calls) (tick db) ≡ (ok a, after)
send-eq-ok engine statement db e = elim (Option-cases (engine.fault db.calls)) [
  | inl fine ↦ rw (fine, send) at e
  | inr (code, broken) ↦ cc (rw (broken, send) at e)
]

-- The sequences that the invariants speak of have not gone back.
abbrev pub SeqLe : Sequences → Sequences → Type 0
SeqLe s t = (s.order ≤ t.order) × (s.payment ≤ t.payment) × (s.notification ≤ t.notification)

pub record Grows {ℓ} {A : Type ℓ} (m : Query A) : Type 0 where
  pub grows : (db : Db) → SeqLe db.seq (m db).1.seq

pub pure-Grows {ℓ} : {A : Type ℓ} (a : A) → Grows (pure a)
pure-Grows a = record { grows = λ db. omega arith }

pub fail-Grows {ℓ} : (A : Type ℓ) (e : Error) → Grows (fail {A = A} e)
fail-Grows A e = record { grows = λ db. omega arith }

continue-SeqLe {ℓ κ} :
    {A : Type ℓ} {B : Type κ} (s : Sequences) (p : Result A × Db) (f : A → Query B)
    → SeqLe s p.1.seq
    → ((a : A) → Grows (f a))
    → SeqLe s (continue p f).1.seq
continue-SeqLe s (ok a, mid) f h g = let k = (g a).grows mid in omega (arith, k)
continue-SeqLe s (err x, mid) f h g = h

pub >>=-Grows {ℓ κ} :
    {A : Type ℓ} {B : Type κ} (m : Query A) (f : A → Query B)
    → Grows m
    → ((a : A) → Grows (f a))
    → Grows (m >>= f)
>>=-Grows m f h g = record { grows = λ db. continue-SeqLe db.seq (m db) f (h.grows db) g }

pub send-Grows {ℓ} :
    {A : Type ℓ} (engine : Engine) (statement : Time → Query A)
    → ((now : Time) → Grows (statement now))
    → Grows (send engine statement)
send-Grows engine statement h = record {
  grows = λ db. elim (Option-cases (engine.fault db.calls)) [
    | inl fine ↦ rw (fine, send) ((h (engine.clock db.calls)).grows (tick db))
    | inr (code, broken) ↦ rw (broken, send) (omega arith)
  ];
}

-- A transaction fails and leaves the tables alone, or its body went through and was committed.
pub data Ends {ℓ} {A : Type ℓ} (body : Query A) (db : Db) : Result A × Db → Type ℓ where
  undone :
      (e : Error) (after : Db)
      → after.tables ≡ db.tables
      → SeqLe db.seq after.seq
      → Ends body db (err e, after)
  committed :
      (a : A) (after : Db) → body (tick db) ≡ (ok a, after) → Ends body db (ok a, tick after)

settle-Ends {ℓ} :
    {A : Type ℓ} (engine : Engine) (body : Query A) (db : Db) (p : Result A × Db)
    → body (tick db) ≡ p
    → SeqLe db.seq p.1.seq
    → Ends body db (settle engine db.tables p)
settle-Ends engine body db (err e, mid) same h = undone e _ refl h
settle-Ends engine body db (ok a, mid) same h = elim (Option-cases (engine.fault mid.calls)) [
  | inl fine ↦ rw (fine, settle) (committed a mid same)
  | inr (code, broken) ↦ rw (broken, settle) (undone _ _ refl h)
]

pub transaction-Ends {ℓ} :
    {A : Type ℓ} (engine : Engine) (body : Query A) (db : Db)
    → Grows body
    → Ends body db (transaction engine body db)
unfolding transaction
transaction-Ends engine body db grown = elim (Option-cases (engine.fault db.calls)) [
  | inl fine ↦
      rw (fine, transaction)
        (settle-Ends engine body db (body (tick db)) refl (grown.grows (tick db)))
  | inr (code, broken) ↦ rw (broken, transaction) (undone _ _ refl (omega arith))
]

-- A transaction that succeeded ran its body to the end and was committed.
settle-eq-ok {ℓ} :
    {A : Type ℓ} (engine : Engine) (before : Tables) (p : Result A × Db) {a : A} {after : Db}
    → settle engine before p ≡ (ok a, after)
    → (mid : Db) × (p ≡ (ok a, mid)) × (after ≡ tick mid)
settle-eq-ok engine before (err e, mid) h = absurd cc
settle-eq-ok engine before (ok b, mid) h = elim (Option-cases (engine.fault mid.calls)) [
  | inl fine ↦ let e = rw (fine, settle) at h in (mid, cc, cc)
  | inr (code, broken) ↦ absurd (cc (rw (broken, settle) at h))
]

pub transaction-eq-ok {ℓ} :
    {A : Type ℓ} (engine : Engine) (body : Query A) (db : Db) {a : A} {after : Db}
    → transaction engine body db ≡ (ok a, after)
    → (mid : Db) × (body (tick db) ≡ (ok a, mid)) × (after ≡ tick mid)
unfolding transaction
transaction-eq-ok engine body db h = elim (Option-cases (engine.fault db.calls)) [
  | inl fine ↦ settle-eq-ok engine db.tables (body (tick db)) (rw (fine, transaction) at h)
  | inr (code, broken) ↦ absurd (cc (rw (broken, transaction) at h))
]
