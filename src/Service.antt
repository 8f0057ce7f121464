-- ===== src/Service.antt =====
-- `InvoiceService` (internal/service/invoice_service.go). Logging is left out.
pub mod Submit
pub mod Missing
pub mod Reads
pub mod Listing
pub mod Delivery
pub mod Creation
pub mod ReadBack
pub mod Final
pub mod Answers
pub mod Payment
use Prim.Native.String.{◌++◌}
use tax_module.Prelude.{
  ℕ, String, Bool, not, Option, none, some, List, [], ◌∷◌, is_empty, if◌then◌else◌,
}
use tax_module.Prelude.Int.{ℤ, pos, is_nonpos, exceeds}
use tax_module.Domain.Status.{
  InvoiceStatus, draft, submitted, status_eq, status_text, can_transition_to,
}
use tax_module.Domain.Invoice.{Invoice, InvoiceItem, InvoiceStatusHistory, Time, Uuid}
use tax_module.Domain.Errors.{Error, new_validation_error, new_invalid_transition_error}
use tax_module.Domain.Publisher.{InvoicePublisher, ReportReply}
use tax_module.Store.{Result, ok, err, Env, M, pure, ◌>>=◌, ◌>>◌, time_now, uuid_new}
use tax_module.Repository.Invoices.{
  create_with_items, get_by_id, update_status, update_transaction_hash, get_items_by_invoice_id,
  add_status_history, get_status_history,
}
use tax_module.Repository.Listing.{InvoiceFilter, list}

-- The interface to the job queue.
pub record JobEnqueuer : Type 0 where
  pub enqueue : Uuid → M (Option Error)

-- The two tests on the limit.
abbrev pub clamp_limit : ℤ → ℤ
clamp_limit n =
    let positive = if is_nonpos n then pos 20 else n in
    if exceeds positive 100 then pos 100 else positive

module _ (env : Env) where
  -- The loop that gives each item an id, its invoice and a time.
  unfoldable pub assign_items : Uuid → Time → List InvoiceItem → M (List InvoiceItem)
  assign_items invoice_id now [] w = ([], w)
  assign_items invoice_id now (item ∷ items) w =
      let (item_id, w') = uuid_new env w in
      let (rest, w'') = assign_items invoice_id now items w' in
      (record item { id = item_id; invoice_id = invoice_id; created_at = now } ∷ rest, w'')

  -- The invoice comes back as the caller's pointer sees it.
  unfoldable pub create_invoice : Invoice → M (Invoice × Option Error)
  create_invoice invoice = do
    now ← time_now env
    id ← uuid_new env
    transaction_uuid ← uuid_new env
    items ← assign_items id now invoice.items
    let final = record invoice {
      id = id;
      status = draft;
      created_at = now;
      updated_at = now;
      transaction_uuid = some (env.uuid_string transaction_uuid);
      items = items;
    }
    failure ← create_with_items env final
    pure (final, failure)

  unfoldable pub update_hash_found : Uuid → String → Result Invoice → M (Option Error)
  update_hash_found id hash (err e) = pure (some e)
  update_hash_found id hash (ok existing) =
      if status_eq existing.status draft
      then update_transaction_hash env id hash
      else pure
          (some (new_validation_error "transaction hash can only be updated on draft invoices"))

  unfoldable pub update_hash : Uuid → String → M (Option Error)
  unfolding update_hash_found
  update_hash id hash = do found ← get_by_id env id; update_hash_found id hash found

  unfoldable pub get_invoice_items : Invoice → Result (List InvoiceItem) → Result Invoice
  get_invoice_items invoice (err e) = err e
  get_invoice_items invoice (ok items) = ok (record invoice { items = items })

  pub get_invoice_found : Uuid → Result Invoice → M (Result Invoice)
  get_invoice_found id (err e) = pure (err e)
  get_invoice_found id (ok invoice) = do
    items ← get_items_by_invoice_id env id
    pure (get_invoice_items invoice items)

  unfoldable pub get_invoice : Uuid → M (Result Invoice)
  unfolding get_invoice_found get_invoice_items
  get_invoice id = do found ← get_by_id env id; get_invoice_found id found

  unfoldable pub list_invoices : InvoiceFilter → M (Result (List Invoice × ℕ))
  list_invoices f = list env (record f { limit = clamp_limit f.limit })

  pub history_found : Uuid → Result Invoice → M (Result (List InvoiceStatusHistory))
  history_found id (err e) = pure (err e)
  history_found id (ok _) = get_status_history env id

  unfoldable pub get_history : Uuid → M (Result (List InvoiceStatusHistory))
  unfolding history_found
  get_history id = do found ← get_by_id env id; history_found id found

  module _ (enqueuer : JobEnqueuer) where
    -- After `UpdateStatus` to submitted: what goes wrong from here on is only logged.
    unfoldable pub submit_updated : Uuid → Invoice → Option Error → M (Option Error)
    submit_updated id existing (some e) = pure (some e)
    submit_updated id existing none = do
      history_id ← uuid_new env
      now ← time_now env
      add_status_history env (record {
        id = history_id;
        invoice_id = id;
        from_status = status_text existing.status;
        to_status = status_text submitted;
        reason = "submitted via API";
        changed_by = "api";
        created_at = now;
      })
      enqueuer.enqueue id
      pure none

    unfoldable pub submit_found : Uuid → Result Invoice → M (Option Error)
    submit_found id (err e) = pure (some e)
    submit_found id (ok existing) =
        if not (can_transition_to existing.status submitted)
        then pure (
            some
              (new_invalid_transition_error (status_text existing.status) (status_text submitted)))
        else (update_status env id submitted "submitted via API" >>= λ failure.
            submit_updated id existing failure)

    unfoldable pub submit_invoice : Uuid → M (Option Error)
    unfolding submit_found submit_updated
    submit_invoice id = do found ← get_by_id env id; submit_found id found

  module _ (publisher : InvoicePublisher) where
    abbrev pub with_number : String → Result String → Result (String × String)
    with_number number (err e) = err e
    with_number number (ok file) = ok (file, number)

    abbrev unpublished : M (Result (String × String))
    unpublished = pure (err (new_validation_error "invoice has not been published to Viettel yet"))

    pub download_number : Option String → M (Result (String × String))
    download_number none = unpublished
    download_number (some number) =
        if is_empty number
        then unpublished
        else (publisher.download_invoice_file number "PDF" >>= λ file.
            pure (with_number number file))

    pub download_found : Result Invoice → M (Result (String × String))
    download_found (err e) = pure (err e)
    download_found (ok invoice) = download_number invoice.external_id

    -- The file and the invoice number.
    unfoldable pub download_invoice_file : Uuid → M (Result (String × String))
    unfolding download_found download_number
    download_invoice_file id = do found ← get_by_id env id; download_found found

    unfoldable pub report_to_authority : String → String → String → M ReportReply
    report_to_authority uuid start_date end_date =
        publisher.report_to_authority uuid start_date end_date
