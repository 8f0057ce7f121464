-- ===== src/Worker/Queue/Bounds.antt =====
-- The queue is bounded and first in, first out (`Enqueue`, internal/worker/pool.go).
use tax_module.Prelude.{◌≡◌, arith}
use tax_module.Worker.Settings.{PoolConfig}
use tax_module.Store.{World}
use tax_module.Worker.Job.{Job}
use tax_module.Worker.Queue.{enqueue}

pub enqueue-db : (cfg : PoolConfig) (job : Job) (w : World) → (enqueue cfg job w).1.db ≡ w.db
unfolding enqueue
enqueue-db cfg job w = ground arith
