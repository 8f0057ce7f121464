-- ===== src/System.antt =====
-- The operations that write, each run whole, with none of another goroutine between its calls (the
-- wiring of cmd/server/main.go). How they interleave is the subject of Concurrency.
pub mod Lifecycle
use tax_module.Prelude.{String, List, [], ◌∷◌}
use tax_module.Worker.Settings.{PoolConfig}
use tax_module.Domain.Invoice.{Invoice, Uuid}
use tax_module.Domain.Publisher.{InvoicePublisher}
use tax_module.Store.{World, Env}
use tax_module.Worker.Queue.{poll_pending_invoices, worker_turn}
use tax_module.Service.{create_invoice, update_hash, submit_invoice}
use tax_module.Service.Submit.{adapter}

-- The operations that write.
pub data Event : Type 0 where
  creation : Invoice → Event
  payment : Uuid → String → Event
  submission : Uuid → Event
  turn : Event
  poll_round : Event

module _ (env : Env) (cfg : PoolConfig) (publisher : InvoicePublisher) where
  unfoldable pub step : Event → World → World
  step (creation invoice) w = (create_invoice env invoice w).1
  step (payment id hash) w = (update_hash env id hash w).1
  step (submission id) w = (submit_invoice env (adapter cfg) id w).1
  step turn w = (worker_turn cfg env publisher w).1
  step poll_round w = (poll_pending_invoices cfg env w).1

  unfoldable pub run : List Event → World → World
  run [] w = w
  run (e ∷ es) w = run es (step e w)
