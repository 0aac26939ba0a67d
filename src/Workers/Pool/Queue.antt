-- ===== src/Workers/Pool/Queue.antt =====
-- What the queue of internal/workers/pool.go holds after a sweep.
use order_processing_system.Base.{
  ℕ, zero, suc, ◌-◌, ◌≤◌, ◌<◌, ◌≡◌, refl, sym, ap, ◌∙◌, Bool, true, false, some, List, [], ◌∷◌,
  ◌++◌, ltb, take, length, length-append, arith, inl, inr, Bool-cases,
}
use mathlib.Core.List.{append_assoc}
use order_processing_system.Config.{WorkerConfig}
use order_processing_system.Models.{Time, Result, ok, err}
use order_processing_system.Database.{Db, Engine}
use order_processing_system.Base.Int.{pos_part}
use order_processing_system.Repository.Order.History.{list_stale-same}
use order_processing_system.Workers.Pool.{
  Pool, queue_size, process, process_all, batch_size, sweep, reclaim,
}

-- `filled`: the queue with as many of the ids as there is room for, in their order.
abbrev pub filled : WorkerConfig → List ℕ → Pool → Pool
filled cfg ids p = record p { jobs = p.jobs ++ take (queue_size cfg - length p.jobs) ids }

append_nil : (xs : List ℕ) → xs ++ [] ≡ xs
append_nil [] = refl
append_nil (x ∷ xs) = ap (λ ys. x ∷ ys) (append_nil xs)

take_zero : (n : ℕ) (xs : List ℕ) → n ≡ 0 → take n xs ≡ []
take_zero n xs e = rw e refl

take_more : (n : ℕ) (x : ℕ) (xs : List ℕ) → 0 < n → take n (x ∷ xs) ≡ x ∷ take (n - 1) xs
take_more zero x xs h = absurd (omega (arith, h))
take_more (suc n) x xs h = let e : suc n - 1 ≡ n = omega arith in rw e refl

take_empty : (n : ℕ) → take {A = ℕ} n [] ≡ []
take_empty zero = refl
take_empty (suc n) = refl

process-room :
    (cfg : WorkerConfig) (picks_send : Bool) (id : ℕ) (p : Pool)
    → p.stopped ≡ false
    → ltb (length p.jobs) (queue_size cfg) ≡ true
    → process cfg picks_send id p ≡ some (record p { jobs = p.jobs ++ (id ∷ []) })
unfolding process
process-room cfg picks_send id p live room = ground (arith, live, room)

process-full :
    (cfg : WorkerConfig) (picks_send : Bool) (id : ℕ) (p : Pool)
    → p.stopped ≡ false
    → ltb (length p.jobs) (queue_size cfg) ≡ false
    → process cfg picks_send id p ≡ some p
unfolding process
process-full cfg picks_send id p live full = ground (arith, live, full)

-- On a running pool whose queue is within its size, the orders that are handed over one after the
-- other are queued in their order up to the size, the rest is dropped, and nothing panics.
pub process_all-filled :
    (cfg : WorkerConfig) (picks : ℕ → Bool) (ids : List ℕ) (p : Pool)
    → p.stopped ≡ false
    → length p.jobs ≤ queue_size cfg
    → process_all cfg picks ids p ≡ some (filled cfg ids p)
unfolding process_all
process_all-filled cfg picks [] p live fits =
    ap (λ js. some (record p { jobs = js }))
      (sym
        (ap (λ js. p.jobs ++ js) (take_empty (queue_size cfg - length p.jobs)) ∙ append_nil p.jobs))
process_all-filled cfg picks (id ∷ ids) p live fits =
    elim (Bool-cases (ltb (length p.jobs) (queue_size cfg))) [
      | inl room ↦
          let next = record p { jobs = p.jobs ++ (id ∷ []) } in
          let grown = length-append p.jobs (id ∷ []) in
          let rest = process_all-filled cfg picks ids next live (ground (arith, grown, room)) in
          let size : queue_size cfg - length (p.jobs ++ (id ∷ []))
              ≡ queue_size cfg - length p.jobs - 1 =
            omega (arith, grown) in
          let more : take (queue_size cfg - length p.jobs) (id ∷ ids)
              ≡ id ∷ take (queue_size cfg - length p.jobs - 1) ids =
            take_more _ id ids (ground (arith, room)) in
          rw (process-room cfg (picks (length ids)) id p live room, process_all)
            (rest
              ∙ ap (λ js. some (record p { jobs = js }))
                  (append_assoc p.jobs (id ∷ []) _
                    ∙ ap (λ k. p.jobs ++ (id ∷ take k ids)) size
                    ∙ ap (λ js. p.jobs ++ js) (sym more)))
      | inr full ↦
          let rest = process_all-filled cfg picks ids p live fits in
          let none_left : queue_size cfg - length p.jobs ≡ 0 = ground (arith, full) in
          rw (process-full cfg (picks (length ids)) id p live full, process_all)
            (rest
              ∙ ap (λ js. some (record p { jobs = p.jobs ++ js }))
                  (take_zero _ ids none_left ∙ sym (take_zero _ (id ∷ ids) none_left)))
    ]

length-take_le : (n : ℕ) (xs : List ℕ) → length (take n xs) ≤ n
length-take_le zero xs = omega arith
length-take_le (suc n) [] = omega arith
length-take_le (suc n) (x ∷ xs) = omega (arith, length-take_le n xs)

-- What a sweep leaves of a running pool and of the database.
pub record Swept (cfg : WorkerConfig) (p : Pool) (db : Db) (q : Pool) (after : Db) : Type 0 where
  pub queued : List ℕ
  pub jobs : q.jobs ≡ p.jobs ++ queued
  pub running : q.stopped ≡ false
  pub fits : length q.jobs ≤ queue_size cfg
  pub tables : after.tables ≡ db.tables

Swept-filled :
    (cfg : WorkerConfig) (ids : List ℕ) (p : Pool) (db after : Db)
    → p.stopped ≡ false
    → length p.jobs ≤ queue_size cfg
    → after.tables ≡ db.tables
    → Swept cfg p db (filled cfg ids p) after
Swept-filled cfg ids p db after live fits t = record {
  queued = take (queue_size cfg - length p.jobs) ids;
  jobs = refl;
  running = live;
  fits = omega (
    arith,
    length-append p.jobs (take (queue_size cfg - length p.jobs) ids),
    length-take_le (queue_size cfg - length p.jobs) ids,
    fits,
  );
  tables = t;
}

sweep-Swept :
    (cfg : WorkerConfig) (picks : ℕ → Bool) (db : Db) (p : Pool) (r : Result (List ℕ) × Db)
    → p.stopped ≡ false
    → length p.jobs ≤ queue_size cfg
    → r.1.tables ≡ db.tables
    → let answer = sweep cfg picks r p in
      (q : Pool) × (answer.0 ≡ some q) × Swept cfg p db q answer.1
unfolding sweep
sweep-Swept cfg picks db p (err e, after) live fits t = (
  p,
  refl,
  record { queued = []; jobs = sym (append_nil p.jobs); running = live; fits = fits; tables = t },
)
sweep-Swept cfg picks db p (ok ids, after) live fits t = (
  filled cfg ids p,
  process_all-filled cfg picks ids p live fits,
  Swept-filled cfg ids p db after live fits t,
)

-- A sweep of a running pool whose queue is within its size only appends to the queue, keeps it
-- within the size, keeps the pool running and leaves the tables as they are, even if the list of
-- stale orders fails.
pub reclaim-Swept :
    (cfg : WorkerConfig) (picks : ℕ → Bool) (engine : Engine) (now : Time) (db : Db) (p : Pool)
    → p.stopped ≡ false
    → length p.jobs ≤ queue_size cfg
    → let answer = reclaim cfg picks engine now db p in
      (q : Pool) × (answer.0 ≡ some q) × Swept cfg p db q answer.1
unfolding reclaim
reclaim-Swept cfg picks engine now db p live fits =
    sweep-Swept cfg picks db p _ live fits
      (list_stale-same engine now (pos_part cfg.stale_after) (pos_part (batch_size cfg)) db).0
