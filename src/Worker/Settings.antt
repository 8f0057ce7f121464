-- ===== src/Worker/Settings.antt =====
-- What the pool makes of its settings (`NewPool`, `Start`, `poller` and `handlePublishError`,
-- internal/worker/pool.go).
use tax_module.Prelude.{ℕ, zero, suc, Option, none, some}
use tax_module.Prelude.Int.{ℤ, pos, negsuc}
use tax_module.Config.{WorkerConfig}

-- The settings of a pool at work: its number of workers, the capacity of its channel, the period of its
-- ticker and the limit of retries.
pub record PoolConfig : Type 0 where
  pub pool_size : ℕ
  pub queue_size : ℕ
  pub poll_interval : ℕ
  pub max_retries : ℕ

-- A loop from 0 up to a negative number does nothing, and a count from 1 on is at or above it as it is
-- at or above 0.
abbrev pub at_least_zero : ℤ → ℕ
at_least_zero (pos n) = n
at_least_zero (negsuc _) = 0

-- `make(chan Job, n)` panics at a negative capacity.
abbrev pub channel_capacity : ℤ → Option ℕ
channel_capacity (pos n) = some n
channel_capacity (negsuc _) = none

-- `time.NewTicker` panics at a period that is not positive.
abbrev pub ticker_period : ℤ → Option ℕ
ticker_period (pos zero) = none
ticker_period (pos (suc n)) = some (suc n)
ticker_period (negsuc _) = none

abbrev with_both : WorkerConfig → Option ℕ → Option ℕ → Option PoolConfig
with_both cfg (some capacity) (some period) = some (record {
  pool_size = at_least_zero cfg.pool_size;
  queue_size = capacity;
  poll_interval = period;
  max_retries = at_least_zero cfg.max_retries;
})
with_both cfg _ _ = none

-- `none` where `NewPool` or the poller that `Start` sets going panics, which ends the program.
unfoldable pub pool_config : WorkerConfig → Option PoolConfig
pool_config cfg = with_both cfg (channel_capacity cfg.queue_size) (ticker_period cfg.poll_interval)
