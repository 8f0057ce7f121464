-- ===== src/Concurrency/Statuses.antt =====
-- The statuses that the program stores (internal/domain/invoice.go, internal/worker/pool.go).
use tax_module.Prelude.{
  ℕ, ◌+◌, ◌==◌, true, List, [], ◌∷◌, ◌++◌, All, ◌≡◌, refl, sym, subst, ◌∙◌, Bool-cases, inl, inr,
  String,
}
use tax_module.Worker.Settings.{PoolConfig}
use tax_module.Domain.Status.{
  InvoiceStatus, draft, submitted, processing, completed, failed, status_eq,
}
use tax_module.Domain.Invoice.{Invoice, InvoiceStatusHistory, Uuid}
use tax_module.Domain.Publisher.{InvoicePublisher, PublisherLaws, SameTables}
use tax_module.Store.{Database, World, Env, exec, time_now, uuid_new}
use tax_module.Repository.Rows.{
  update_where_id, update_invoices, set_columns, set_status, set_transaction_hash, insert_history,
  inserted_row,
}
use tax_module.Repository.Invoices.{
  update, update_status, update_transaction_hash, add_status_history, time_if,
}
use tax_module.Repository.Reads.{get_by_id-Leaves, items-Leaves, pending-Leaves}
use tax_module.Repository.Status.{exec-db, time_if-db}
use tax_module.Repository.Atomic.{create_with_items-atomic}
use tax_module.Service.{assign_items, create_invoice}
use tax_module.Service.Creation.{assign_items-db}
use tax_module.Concurrency.Calls.{is_live, is_written, Kept}
use tax_module.Concurrency.Pool.{Turn, start, run}
use tax_module.Concurrency.Invariant.{schedule-Kept}
use tax_module.Worker.Queue.Bounds.{enqueue-db}

-- Every invoice is a draft, submitted, processing, completed or failed.
abbrev pub AllLive : Database → Type 0
AllLive db = All (λ row. is_live row.status ≡ true) db.invoices

update-All :
    (P : Invoice → Type 0) (j : Uuid) (set : Invoice → Invoice) (rows : List Invoice)
    → ((row : Invoice) → P row → P (set row))
    → All P rows
    → All P (update_where_id j set rows)
update-All P j set [] keep h = tt
update-All P j set (row ∷ rows) keep (p, ps) = elim (Bool-cases (row.id == j)) [
  | inl own ↦ rw own (keep row p, update-All P j set rows keep ps)
  | inr other ↦ rw other (p, update-All P j set rows keep ps)
]

append-All : (P : Invoice → Type 0) (xs ys : List Invoice) → All P xs → All P ys → All P (xs ++ ys)
append-All P [] ys h all = all
append-All P (x ∷ xs) ys (p, ps) all = (p, append-All P xs ys ps all)

written_live : (s : InvoiceStatus) → is_written s ≡ true → is_live s ≡ true
written_live draft h = cc
written_live submitted h = h
written_live processing h = h
written_live completed h = h
written_live failed h = h
written_live _ h = cc

module _ (env : Env) where
  statement-AllLive :
      (statement : Database → Database × ℕ) (w : World)
      → AllLive (statement w.db).0
      → AllLive w.db
      → AllLive (exec env statement w).1.db
  statement-AllLive statement w after before = elim (exec-db env statement w) [
    | inl refused ↦ subst AllLive (sym refused) before
    | inr accepted ↦ subst AllLive (sym accepted) after
  ]

  updated-AllLive :
      (j : Uuid) (set : Invoice → Invoice) (w : World)
      → ((row : Invoice) → is_live row.status ≡ true → is_live (set row).status ≡ true)
      → AllLive w.db
      → AllLive (exec env (update_invoices j set) w).1.db
  unfolding update_invoices
  updated-AllLive j set w keep h =
      statement-AllLive (update_invoices j set) w
        (update-All (λ row. is_live row.status ≡ true) j set w.db.invoices keep h) h

  update-AllLive :
      (invoice : Invoice) (w : World) → AllLive w.db → AllLive (update env invoice w).1.db
  unfolding update
  update-AllLive invoice w h = updated-AllLive invoice.id (set_columns invoice) w (λ row p. p) h

  update_status-AllLive :
      (j : Uuid) (s : InvoiceStatus) (reason : String) (live : is_live s ≡ true) (w : World)
      → AllLive w.db
      → AllLive (update_status env j s reason w).1.db
  unfolding update_status time_now
  update_status-AllLive j s reason live w h =
      let w₁ : World = record w { tick = w.tick + 1 } in
      let (submitted_at, w₂) = time_if env (status_eq s submitted) w₁ in
      let (completed_at, w₃) = time_if env (status_eq s completed) w₂ in
      let later =
        time_if-db env (status_eq s completed) w₂ ∙ time_if-db env (status_eq s submitted) w₁ in
      updated-AllLive j (set_status s reason (env.now w.tick) submitted_at completed_at) w₃
        (λ row p. live) (subst AllLive (sym later) h)

  update_hash-AllLive :
      (j : Uuid) (hash : String) (w : World)
      → AllLive w.db
      → AllLive (update_transaction_hash env j hash w).1.db
  unfolding update_transaction_hash time_now
  update_hash-AllLive j hash w h =
      updated-AllLive j (set_transaction_hash hash (env.now w.tick))
        (record w { tick = w.tick + 1 }) (λ row p. p) h

  history-AllLive :
      (entry : InvoiceStatusHistory) (w : World)
      → AllLive w.db
      → AllLive (add_status_history env entry w).1.db
  unfolding add_status_history insert_history
  history-AllLive entry w h = statement-AllLive (insert_history entry) w h h

  create-AllLive :
      (invoice : Invoice) (w : World) → AllLive w.db → AllLive (create_invoice env invoice w).1.db
  unfolding create_invoice time_now uuid_new inserted_row
  create-AllLive invoice w h =
      let w₁ : World = record w { tick = w.tick + 1 + 1 + 1 } in
      let now = env.now w.tick in
      let new = env.new_uuid (w.tick + 1) in
      let w₂ = (assign_items env new now invoice.items w₁).1 in
      let final = (create_invoice env invoice w).0.0 in
      let before = subst AllLive (sym (assign_items-db env new now invoice.items w₁)) h in
      elim (create_with_items-atomic env final w₂) [
        | inl (fine, done) ↦
            subst AllLive (sym done) (append-All _ w₂.db.invoices _ before (refl, tt))
        | inr (failed', kept) ↦ subst AllLive (sym kept) before
      ]

  tables-AllLive : (w w' : World) → SameTables w w' → AllLive w.db → AllLive w'.db
  tables-AllLive w w' same h =
      subst (All (λ row. is_live row.status ≡ true)) (sym same.same_invoices) h

  AllLive-Kept : (cfg : PoolConfig) → Kept env cfg (λ w. AllLive w.db) (λ invoice. Unit)
  AllLive-Kept cfg = record {
    carry = λ _ _ _. tt;
    read = λ _ _ _ _ _. tt;
    on_tick = λ w n h. h;
    on_get = λ i w h. tables-AllLive w _ (get_by_id-Leaves env i w) h;
    on_items = λ i w h. tables-AllLive w _ (items-Leaves env i w) h;
    on_pending = λ limit w h. tables-AllLive w _ (pending-Leaves env limit w) h;
    on_update = λ invoice _ w h. update-AllLive invoice w h;
    on_status = λ j s reason written. update_status-AllLive j s reason (written_live s written);
    on_hash = update_hash-AllLive;
    on_history = history-AllLive;
    on_create = create-AllLive;
    on_enqueue = λ job w h. subst AllLive (sym (enqueue-db cfg job w)) h;
    on_receive = λ w job jobs e h. h;
    on_publisher = tables-AllLive;
  }

  -- From the start of the pool on, whatever the schedule of its workers, its poller and the requests,
  -- and whatever the database and a publisher that keeps its laws answer: where every invoice is a
  -- draft, submitted, processing, completed or failed, this stays so: none is ever cancelled or
  -- has a text that is no status.
  pub schedule-AllLive :
      (cfg : PoolConfig) (publisher : InvoicePublisher) (laws : PublisherLaws publisher)
      (ts : List Turn) (w : World)
      → AllLive w.db
      → AllLive (run env cfg publisher ts (start cfg w)).world.db
  schedule-AllLive cfg publisher laws ts w h =
      schedule-Kept (AllLive-Kept cfg) publisher laws ts w h
