-- ===== src/Workers/Pool.antt =====
-- internal/workers/pool.go and `reclaim` of internal/workers/sweeper.go: the buffered channel of order ids.
-- `none` is a panic. The sizes of the queue and of a batch and the age of a stale payment are positive in a
-- working configuration; the model reads a negative one as zero. Where Go's select has several cases ready, a parameter says which it takes.
pub mod Queue
pub mod Drain
mod Tests
use order_processing_system.Base.{
  ℕ, Bool, true, false, ◌&&◌, not, Option, none, some, List, [], ◌∷◌, ◌++◌, ltb, length,
  if◌then◌else◌,
}
use order_processing_system.Base.Int.{ℤ, pos, pos_part, leb_ℤ}
use order_processing_system.Config.{WorkerConfig}
use order_processing_system.Models.{Result, ok, err, Time}
use order_processing_system.Database.{Db, Engine}
use order_processing_system.Repository.Order.{list_stale_pending}

-- `stopped`: both channels are closed.
pub record Pool : Type 0 where
  pub jobs : List ℕ
  pub stopped : Bool

abbrev pub new_pool : Pool
new_pool = record { jobs = []; stopped = false }

-- make(chan int, cfg.QueueSize)
abbrev pub queue_size : WorkerConfig → ℕ
queue_size cfg = pos_part cfg.queue_size

module _ (cfg : WorkerConfig) where
  -- Process. On a stopped pool the send on the closed channel and the receive from `quit` are ready.
  unfoldable pub process : Bool → ℕ → Pool → Option Pool
  process picks_send order_id p =
      if p.stopped
      then (if picks_send then none else some p)
      else some (
          if ltb (length p.jobs) (queue_size cfg)
          then record p { jobs = p.jobs ++ (order_id ∷ []) }
          else p)

  -- The next turn of a worker's loop: the order that it gets, if there is one.
  abbrev pub take_job : Pool → Option ℕ × Pool
  take_job p = elim p.jobs [ [] ↦ (none, p) | id ∷ rest ↦ (some id, record p { jobs = rest }) ]

  -- Stop closes both channels; a second close panics.
  unfoldable pub stop : Pool → Option Pool
  stop p = if p.stopped then none else some (record p { stopped = true })

  -- The loop of `reclaim`.
  unfoldable pub process_all : (ℕ → Bool) → List ℕ → Pool → Option Pool
  unfolding process
  process_all picks [] p = some p
  process_all picks (id ∷ ids) p = elim (process (picks (length ids)) id p) [
    | none ↦ none
    | some p' ↦ process_all picks ids p'
  ]

  -- A batch size that is not positive falls back to the queue's.
  abbrev pub batch_size : ℤ
  batch_size = if leb_ℤ cfg.sweep_batch_size (pos 0) then cfg.queue_size else cfg.sweep_batch_size

  -- What follows the list of stale orders; its error is only logged.
  unfoldable pub sweep : (ℕ → Bool) → Result (List ℕ) × Db → Pool → Option Pool × Db
  unfolding process_all
  sweep picks (err e, db) p = (some p, db)
  sweep picks (ok ids, db) p = (process_all picks ids p, db)

  unfoldable pub reclaim : (ℕ → Bool) → Engine → Time → Db → Pool → Option Pool × Db
  unfolding sweep
  reclaim picks engine now db p =
      sweep picks
        (list_stale_pending engine now (pos_part cfg.stale_after) (pos_part batch_size) db) p
