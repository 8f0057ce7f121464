-- ===== src/Concurrency/Calls.antt =====
-- What a property of the shared state must withstand: each call that a goroutine makes
-- (internal/repository/postgres/invoice_repo.go, internal/worker/pool.go). An invoice in the memory of
-- a goroutine may be stale; of what it carries, only the part that the lifecycle leaves alone counts.
use tax_module.Prelude.{Bool, true, false, ℕ, String, none, [], List, ◌∷◌, ◌≡◌}
use tax_module.Worker.Settings.{PoolConfig}
use tax_module.Domain.Status.{
  InvoiceStatus, draft, submitted, processing, completed, failed, cancelled, other,
}
use tax_module.Domain.Invoice.{Invoice, InvoiceStatusHistory, Uuid}
use tax_module.Domain.Publisher.{SameTables}
use tax_module.Store.{World, Env, ok}
use tax_module.Repository.Invoices.{
  get_by_id, update, update_status, update_transaction_hash, add_status_history,
  get_items_by_invoice_id, get_pending_polling,
}
use tax_module.Worker.Job.{Job}
use tax_module.Worker.Queue.{enqueue}
use tax_module.Service.{create_invoice}
use tax_module.Concurrency.Safety.{Keeps}

-- An invoice without what its lifecycle changes: the buyer, the amounts, the currencies, the payment
-- method, the order, the notes and the time of issue are left.
abbrev pub bill : Invoice → Invoice
bill invoice = record invoice {
  id = 0;
  external_id = none;
  transaction_uuid = none;
  status = draft;
  transaction_hash = "";
  submitted_at = none;
  completed_at = none;
  retry_count = 0;
  last_error = none;
  metadata = none;
  created_at = 0;
  updated_at = 0;
  items = [];
}

-- The statuses that the program writes.
abbrev pub is_live : InvoiceStatus → Bool
is_live draft = true
is_live submitted = true
is_live processing = true
is_live completed = true
is_live failed = true
is_live cancelled = false
is_live (other _) = false

-- Of these, the ones that a change of status writes.
abbrev pub is_written : InvoiceStatus → Bool
is_written draft = false
is_written s = is_live s

-- The calls keep I, where the invoices in memory satisfy C.
pub record Kept (env : Env) (cfg : PoolConfig) (I : World → Type 0) (C : Invoice → Type 0)
    : Type 0 where
  pub carry :
      {invoice invoice' : Invoice}
      → invoice'.id ≡ invoice.id
      → bill invoice' ≡ bill invoice
      → C invoice
      → C invoice'
  pub read : (i : Uuid) (w : World) (row : Invoice) → I w → (get_by_id env i w).0 ≡ ok row → C row
  pub on_tick : (w : World) (n : ℕ) → I w → I (record w { tick = n })
  pub on_get : (i : Uuid) → Keeps I (get_by_id env i)
  pub on_items : (i : Uuid) → Keeps I (get_items_by_invoice_id env i)
  pub on_pending : (limit : ℕ) → Keeps I (get_pending_polling env limit)
  pub on_update : (invoice : Invoice) → C invoice → Keeps I (update env invoice)
  pub on_status :
      (i : Uuid) (s : InvoiceStatus) (reason : String)
      → is_written s ≡ true
      → Keeps I (update_status env i s reason)
  pub on_hash : (i : Uuid) (hash : String) → Keeps I (update_transaction_hash env i hash)
  pub on_history : (h : InvoiceStatusHistory) → Keeps I (add_status_history env h)
  pub on_create : (invoice : Invoice) → Keeps I (create_invoice env invoice)
  pub on_enqueue : (job : Job) → Keeps I (enqueue cfg job)
  pub on_receive :
      (w : World) (job : Job) (jobs : List Job)
      → w.queue ≡ job ∷ jobs
      → I w
      → I (record w { queue = jobs })
  pub on_publisher : (w w' : World) → SameTables w w' → I w → I w'
