-- ===== src/Service/Reads.antt =====
-- The queries of the service write nothing (internal/service/invoice_service.go).
use tax_module.Prelude.{String, Option, none, some, is_empty, Bool-cases, inl, inr}
use tax_module.Domain.Invoice.{Invoice, Uuid}
use tax_module.Domain.Publisher.{InvoicePublisher, PublisherLaws}
use tax_module.Store.{Result, ok, err, Env}
use tax_module.Service.{
  get_invoice, get_invoice_found, history_found, get_history, download_number, download_found,
  download_invoice_file,
}
use tax_module.Integration.Auth.Frames.{Leaves, SameTables-refl}
use tax_module.Repository.Reads.{bind-Leaves, get_by_id-Leaves, items-Leaves, rows-Leaves}

module _ (env : Env) where
  get_invoice_found-Leaves : (i : Uuid) (r : Result Invoice) → Leaves (get_invoice_found env i r)
  unfolding get_invoice_found
  get_invoice_found-Leaves i (err e) w = SameTables-refl w
  get_invoice_found-Leaves i (ok row) w = items-Leaves env i w

  pub get_invoice-Leaves : (i : Uuid) → Leaves (get_invoice env i)
  unfolding get_invoice
  get_invoice-Leaves i =
      bind-Leaves _ (get_invoice_found env i) (get_by_id-Leaves env i) (get_invoice_found-Leaves i)

  history_found-Leaves : (i : Uuid) (r : Result Invoice) → Leaves (history_found env i r)
  unfolding history_found
  history_found-Leaves i (err e) w = SameTables-refl w
  history_found-Leaves i (ok row) w = rows-Leaves env i w

  pub get_history-Leaves : (i : Uuid) → Leaves (get_history env i)
  unfolding get_history
  get_history-Leaves i =
      bind-Leaves _ (history_found env i) (get_by_id-Leaves env i) (history_found-Leaves i)

  module _ (publisher : InvoicePublisher) (laws : PublisherLaws publisher) where
    number-Leaves : (x : Option String) → Leaves (download_number env publisher x)
    unfolding download_number
    number-Leaves none w = SameTables-refl w
    number-Leaves (some n) w = elim (Bool-cases (is_empty n)) [
      | inl blank ↦ rw blank (SameTables-refl w)
      | inr number ↦ rw number (laws.download_tables n "PDF" w)
    ]

    download_found-Leaves : (r : Result Invoice) → Leaves (download_found env publisher r)
    unfolding download_found
    download_found-Leaves (err e) w = SameTables-refl w
    download_found-Leaves (ok row) w = number-Leaves row.external_id w

    pub download-Leaves : (i : Uuid) → Leaves (download_invoice_file env publisher i)
    unfolding download_invoice_file
    download-Leaves i =
        bind-Leaves _ (download_found env publisher) (get_by_id-Leaves env i) download_found-Leaves
