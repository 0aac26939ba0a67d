-- ===== src/Config.antt =====
-- internal/config/config.go: the settings of the workers. A duration is an int64 of nanoseconds.
pub mod Load
mod Tests
use order_processing_system.Base.Int.{ℤ}
use order_processing_system.Models.{Float64}

pub record WorkerConfig : Type 0 where
  pub count : ℤ
  pub queue_size : ℤ
  pub max_retries : ℤ
  pub base_backoff : ℤ
  pub max_backoff : ℤ
  pub attempt_timeout : ℤ
  pub sweep_interval : ℤ
  pub stale_after : ℤ
  pub sweep_batch_size : ℤ
  pub gateway_failure_rate : Float64
  pub shutdown_timeout : ℤ
