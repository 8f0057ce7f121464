-- ===== src/Service/Missing.antt =====
-- The operations of the service on an invoice that is not there (internal/service/invoice_service.go),
-- while the database works.
use tax_module.Prelude.{◌+◌, String, some, none, ◌≡◌, refl}
use tax_module.Domain.Invoice.{Uuid}
use tax_module.Domain.Errors.{Error, new_not_found_error}
use tax_module.Domain.Publisher.{InvoicePublisher}
use tax_module.Store.{World, Env, err}
use tax_module.Repository.Status.{invoice_of}
use tax_module.Repository.Reliable.{IsReliable, get_by_id-missing}
use tax_module.Service.{
  JobEnqueuer, get_invoice, get_invoice_found, get_history, history_found, download_invoice_file,
  download_found, update_hash, update_hash_found, submit_invoice, submit_found,
}

abbrev pub no_invoice : Error
no_invoice = new_not_found_error "invoice not found"

module _ (env : Env) (reliable : IsReliable env) (i : Uuid) (w : World)
    (missing : invoice_of i w ≡ none) where
  abbrev later : World
  later = record w { tick = w.tick + 1 }

  pub get_invoice-missing : get_invoice env i w ≡ (err no_invoice, later)
  unfolding get_invoice get_invoice_found
  get_invoice-missing = rw (get_by_id-missing env reliable i w missing) refl

  pub get_history-missing : get_history env i w ≡ (err no_invoice, later)
  unfolding get_history history_found
  get_history-missing = rw (get_by_id-missing env reliable i w missing) refl

  pub download-missing :
      (publisher : InvoicePublisher)
      → download_invoice_file env publisher i w ≡ (err no_invoice, later)
  unfolding download_invoice_file download_found
  download-missing publisher = rw (get_by_id-missing env reliable i w missing) refl

  pub update_hash-missing : (hash : String) → update_hash env i hash w ≡ (some no_invoice, later)
  unfolding update_hash update_hash_found
  update_hash-missing hash = rw (get_by_id-missing env reliable i w missing) refl

  pub submit_invoice-missing :
      (enqueuer : JobEnqueuer) → submit_invoice env enqueuer i w ≡ (some no_invoice, later)
  unfolding submit_invoice submit_found
  submit_invoice-missing enqueuer = rw (get_by_id-missing env reliable i w missing) refl
