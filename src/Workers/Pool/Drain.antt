-- ===== src/Workers/Pool/Drain.antt =====
-- `work` of internal/workers/pool.go: a worker takes orders from the channel until it is closed and empty.
mod Tests
use order_processing_system.Base.{
  ℕ, zero, suc, ◌+◌, ◌≡◌, ◌≢◌, refl, sym, ap, ◌∙◌, Bool, true, false, Option, none, some, List, [],
  ◌∷◌, inl, inr, arith, length, subst, ◌<◌, if◌then◌else◌, All, Bool-cases,
}
use order_processing_system.Models.{OrderStatus}
use order_processing_system.Config.{WorkerConfig}
use order_processing_system.Database.{Engine}
use order_processing_system.Database.Success.{Faultless}
use order_processing_system.Payment.Gateway.{Gateway}
use order_processing_system.Repository.Order.Ledger.{order_status, Consistent}
use order_processing_system.Repository.Order.Progress.{Awaited}
use order_processing_system.Services.Notification.{Notifier}
use order_processing_system.Services.Fulfillment.{World, fulfill}
use order_processing_system.Services.Fulfillment.Whole.{fulfill-Conserves}
use order_processing_system.Services.Fulfillment.Progress.{fulfill-Progress}
use order_processing_system.Workers.Pool.{Pool, take_job, stop}

module _ {G N : Type 0} (cfg : WorkerConfig) (random : ℕ → ℕ) (gw : Gateway G)
    (notifier : Notifier N) (engine : Engine) where
  -- The loop of a worker, by the turns that it is given; `none` is a worker that has not returned, since it
  -- waits on an open channel or has more turns to take.
  unfoldable pub work : ℕ → Pool → World G N → Option (Pool × World G N)
  work zero p w = none
  work (suc turns) p w =
      let rest =
        λ (id : ℕ). work turns (take_job cfg p).1 (fulfill cfg random gw notifier engine id w) in
      elim (take_job cfg p).0 [ none ↦ if p.stopped then some (p, w) else none | some id ↦ rest id ]

  -- One order after the other.
  abbrev pub fulfill_all : List ℕ → World G N → World G N
  fulfill_all [] w = w
  fulfill_all (id ∷ ids) w = fulfill_all ids (fulfill cfg random gw notifier engine id w)

  abbrev pub drained : Pool
  drained = record { jobs = []; stopped = true }

  work-drains :
      (jobs : List ℕ) (turns : ℕ) (w : World G N)
      → length jobs < turns
      → work turns (record { jobs = jobs; stopped = true }) w ≡ some (drained, fulfill_all jobs w)
  unfolding work
  work-drains jobs zero w h = absurd (omega (arith, h))
  work-drains [] (suc turns) w h = refl
  work-drains (id ∷ ids) (suc turns) w h =
      work-drains ids turns (fulfill cfg random gw notifier engine id w) (omega (arith, h))

  stop-closes : (p p' : Pool) → stop cfg p ≡ some p' → record { jobs = p.jobs; stopped = true } ≡ p'
  unfolding stop
  stop-closes p p' e = ground (arith, e)

  -- Once Stop has closed the pool, a worker that is given more turns than there are queued orders
  -- returns, and has fulfilled each queued order, one after the other in the order of the queue,
  -- which it leaves empty.
  pub work-stop :
      (p p' : Pool) (turns : ℕ) (w : World G N)
      → stop cfg p ≡ some p'
      → length p.jobs < turns
      → work turns p' w ≡ some (drained, fulfill_all p.jobs w)
  work-stop p p' turns w e enough =
      subst (λ q. work turns q w ≡ some (drained, fulfill_all p.jobs w)) (stop-closes p p' e)
        (work-drains p.jobs turns w enough)

  module _ (fine : Faultless engine) where
    later_stays :
        (ids : List ℕ) (w : World G N) (k : ℕ)
        → Consistent w.db.tables w.db.seq
        → Awaited w.db.tables.orders w.db.tables.payments
        → order_status k w.db.tables.orders ≢ some OrderStatus.pending
        → order_status k (fulfill_all ids w).db.tables.orders ≢ some OrderStatus.pending
    later_stays [] w k c waits h = h
    later_stays (id ∷ ids) w k c waits h =
        let w' = fulfill cfg random gw notifier engine id w in
        let step = fulfill-Progress cfg random gw notifier engine fine id w c waits in
        later_stays ids w' k (fulfill-Conserves cfg random gw notifier engine id w c).0 step.awaited
          (step.stays k h)

    none_left :
        (ids : List ℕ) (w : World G N)
        → Consistent w.db.tables w.db.seq
        → Awaited w.db.tables.orders w.db.tables.payments
        → All
            (λ id. order_status id (fulfill_all ids w).db.tables.orders ≢ some OrderStatus.pending)
            ids
    none_left [] w c waits = tt
    none_left (id ∷ ids) w c waits =
        let w' = fulfill cfg random gw notifier engine id w in
        let step = fulfill-Progress cfg random gw notifier engine fine id w c waits in
        let c' = (fulfill-Conserves cfg random gw notifier engine id w c).0 in
        (later_stays ids w' id c' step.awaited step.own, none_left ids w' c' step.awaited)

    -- On consistent tables in which every pending order has a payment that awaits its charge, and
    -- with a database that answers every call, the drain of a stopped pool ends and leaves no order
    -- of its queue pending, however the charges end.
    pub stop-settles :
        (p p' : Pool) (turns : ℕ) (w : World G N)
        → Consistent w.db.tables w.db.seq
        → Awaited w.db.tables.orders w.db.tables.payments
        → stop cfg p ≡ some p'
        → length p.jobs < turns
        → (w' : World G N) × (work turns p' w ≡ some (drained, w'))
          × All (λ id. order_status id w'.db.tables.orders ≢ some OrderStatus.pending) p.jobs
    stop-settles p p' turns w c waits e enough =
        (fulfill_all p.jobs w, work-stop p p' turns w e enough, none_left p.jobs w c waits)
