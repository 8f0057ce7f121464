-- ===== src/Concurrency/Integrity.antt =====
-- What is billed is never changed, however the goroutines interleave (internal/worker/pool.go,
-- internal/service/invoice_service.go).
use tax_module.Prelude.{
  ℕ, ◌+◌, ◌==◌, false, some, List, [], ◌∷◌, ◌++◌, ◌≡◌, refl, sym, subst, ap, ◌∙◌, inl, inr, arith,
}
use mathlib.Core.List.{append-nil, map}
use tax_module.Worker.Settings.{PoolConfig}
use tax_module.Domain.Invoice.{Invoice, InvoiceItem, Time, Uuid}
use tax_module.Domain.Publisher.{InvoicePublisher, PublisherLaws, SameTables}
use tax_module.Store.{Database, World, Env, ok, time_now, uuid_new}
use tax_module.Repository.Rows.{find_invoice, items_of, find-id, inserted_item}
use tax_module.Repository.Invoices.{get_by_id, get_items_by_invoice_id, get_pending_polling}
use tax_module.Repository.Status.{invoice_of, get_by_id-world, get_by_id-ok, get_items-db}
use tax_module.Repository.Reads.{pending-Leaves}
use tax_module.Worker.Queue.Bounds.{enqueue-db}
use tax_module.Repository.Atomic.{stored, create_with_items-atomic}
use tax_module.Service.{assign_items, create_invoice}
use tax_module.Service.Creation.{assign_items-db, items_of-append, items_of-inserted}
use tax_module.Worker.Job.{Job}
use tax_module.Worker.Queue.{enqueue}
use tax_module.Concurrency.Calls.{Kept}
use tax_module.Concurrency.Pool.{Turn, start, run}
use tax_module.Concurrency.Invariant.{schedule-Kept}
use tax_module.Concurrency.Intact.{
  bill_of, IsIntact, Bills, update-IsIntact, update_status-IsIntact, update_hash-IsIntact,
  history-IsIntact,
}

find-append :
    (i : Uuid) (rows more : List Invoice) (d : Invoice)
    → bill_of (find_invoice i rows) ≡ some d
    → bill_of (find_invoice i (rows ++ more)) ≡ some d
find-append i [] more d h = cc
find-append i (row ∷ rows) more d h = ground (arith, find-append i rows more d)

module _ (env : Env) (i : Uuid) (d : Invoice) (items : List InvoiceItem)
    (fresh : (n : ℕ) → (env.new_uuid n == i) ≡ false) where
  assign-none :
      (n : ℕ) (now : Time) (new : List InvoiceItem) (w : World)
      → items_of i (assign_items env (env.new_uuid n) now new w).0 ≡ []
  unfolding assign_items
  assign-none n now [] w = refl
  assign-none n now (item ∷ new) w =
      ground (arith, fresh n, assign-none n now new (uuid_new env w).1)

  stored-IsIntact :
      (final : Invoice) (db : Database)
      → items_of i final.items ≡ []
      → IsIntact i d items db
      → IsIntact i d items (stored env final db)
  stored-IsIntact final db others h = record {
    billed = find-append i db.invoices _ d h.billed;
    itemised =
        items_of-append i db.invoice_items (map (inserted_item env) final.items)
        ∙ (ap (λ xs. items_of i db.invoice_items ++ xs)
              (items_of-inserted env i final.items ∙ ap (map (inserted_item env)) others)
            ∙ (append-nil _ ∙ h.itemised));
  }

  create-IsIntact :
      (invoice : Invoice) (w : World)
      → IsIntact i d items w.db
      → IsIntact i d items (create_invoice env invoice w).1.db
  unfolding create_invoice time_now uuid_new
  create-IsIntact invoice w h =
      let w₁ : World = record w { tick = w.tick + 1 + 1 + 1 } in
      let now = env.now w.tick in
      let new = env.new_uuid (w.tick + 1) in
      let w₂ = (assign_items env new now invoice.items w₁).1 in
      let final = (create_invoice env invoice w).0.0 in
      let before =
        subst (IsIntact i d items) (sym (assign_items-db env new now invoice.items w₁)) h in
      elim (create_with_items-atomic env final w₂) [
        | inl (fine, done) ↦
            subst (IsIntact i d items) (sym done)
              (stored-IsIntact final w₂.db (assign-none (w.tick + 1) now invoice.items w₁) before)
        | inr (failed', kept) ↦ subst (IsIntact i d items) (sym kept) before
      ]

  read-Bills :
      (j : Uuid) (w : World) (row : Invoice)
      → IsIntact i d items w.db
      → (get_by_id env j w).0 ≡ ok row
      → Bills i d row
  read-Bills j w row h read own =
      let found = get_by_id-ok env j w row read in
      let j_is : j ≡ i = sym (find-id j w.db.invoices row found) ∙ own in
      let here : invoice_of i w ≡ some row = subst (λ k. invoice_of k w ≡ some row) j_is found in
      ground (arith, h.billed, here)

  get-IsIntact :
      (j : Uuid) (w : World) → IsIntact i d items w.db → IsIntact i d items (get_by_id env j w).1.db
  get-IsIntact j w h = rw (get_by_id-world env j w) h

  items-IsIntact :
      (j : Uuid) (w : World)
      → IsIntact i d items w.db
      → IsIntact i d items (get_items_by_invoice_id env j w).1.db
  items-IsIntact j w h = subst (IsIntact i d items) (sym (get_items-db env j w)) h

  tables-IsIntact :
      (w w' : World) → SameTables w w' → IsIntact i d items w.db → IsIntact i d items w'.db
  tables-IsIntact w w' same h = record {
    billed = ap (λ rows. bill_of (find_invoice i rows)) same.same_invoices ∙ h.billed;
    itemised = ap (items_of i) same.same_items ∙ h.itemised;
  }

  pending-IsIntact :
      (limit : ℕ) (w : World)
      → IsIntact i d items w.db
      → IsIntact i d items (get_pending_polling env limit w).1.db
  pending-IsIntact limit w h = tables-IsIntact w _ (pending-Leaves env limit w) h

  enqueue-IsIntact :
      (cfg : PoolConfig) (job : Job) (w : World)
      → IsIntact i d items w.db
      → IsIntact i d items (enqueue cfg job w).1.db
  enqueue-IsIntact cfg job w h = subst (IsIntact i d items) (sym (enqueue-db cfg job w)) h

  IsIntact-Kept : (cfg : PoolConfig) → Kept env cfg (λ w. IsIntact i d items w.db) (Bills i d)
  IsIntact-Kept cfg = record {
    carry = λ same_id same_bill c own. same_bill ∙ c (sym same_id ∙ own);
    read = read-Bills;
    on_tick = λ w n h. h;
    on_get = get-IsIntact;
    on_items = items-IsIntact;
    on_pending = pending-IsIntact;
    on_update = update-IsIntact env i d items;
    on_status = λ j s reason live. update_status-IsIntact env i d items j s reason;
    on_hash = update_hash-IsIntact env i d items;
    on_history = history-IsIntact env i d items;
    on_create = create-IsIntact;
    on_enqueue = enqueue-IsIntact cfg;
    on_receive = λ w job jobs e h. h;
    on_publisher = tables-IsIntact;
  }

  -- From the start of the pool on, whatever the schedule of its workers, its poller and the requests,
  -- and whatever the database and a publisher that keeps its laws answer: an invoice whose uuid is
  -- given to no other keeps its buyer, its amounts, its currencies, its payment method, its order,
  -- its notes and its time of issue, and it keeps its items.
  pub schedule-IsIntact :
      (cfg : PoolConfig) (publisher : InvoicePublisher) (laws : PublisherLaws publisher)
      (ts : List Turn) (w : World)
      → IsIntact i d items w.db
      → IsIntact i d items (run env cfg publisher ts (start cfg w)).world.db
  schedule-IsIntact cfg publisher laws ts w h =
      schedule-Kept (IsIntact-Kept cfg) publisher laws ts w h
