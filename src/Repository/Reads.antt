-- ===== src/Repository/Reads.antt =====
-- The queries of the repository write nothing (internal/repository/postgres/invoice_repo.go).
use tax_module.Prelude.{ℕ, Option, none, some, length, arith}
use tax_module.Domain.Invoice.{Uuid}
use tax_module.Store.{Result, ok, err, Env, M, ◌>>=◌, query_row}
use tax_module.Repository.Invoices.{
  get_by_id, get_items_by_invoice_id, get_status_history, get_pending_polling,
}
use tax_module.Repository.Listing.{InvoiceFilter, where_matches, page, count_page, list}
use tax_module.Integration.Auth.Frames.{Leaves, SameTables-refl, SameTables-trans}

pub bind-Leaves :
    {A B : Type 0} (m : M A) (f : A → M B) → Leaves m → ((a : A) → Leaves (f a)) → Leaves (m >>= f)
bind-Leaves m f first rest w = SameTables-trans (first w) (rest (m w).0 (m w).1)

module _ (env : Env) where
  pub get_by_id-Leaves : (i : Uuid) → Leaves (get_by_id env i)
  unfolding get_by_id
  get_by_id-Leaves i w = ground arith

  pub items-Leaves : (i : Uuid) → Leaves (get_items_by_invoice_id env i)
  unfolding get_items_by_invoice_id
  items-Leaves i w = ground arith

  pub rows-Leaves : (i : Uuid) → Leaves (get_status_history env i)
  unfolding get_status_history
  rows-Leaves i w = ground arith

  pub pending-Leaves : (limit : ℕ) → Leaves (get_pending_polling env limit)
  unfolding get_pending_polling
  pending-Leaves limit w = ground arith

  page-Leaves : (f : InvoiceFilter) → Leaves (page env f)
  unfolding page
  page-Leaves f w = ground arith

  count-Leaves :
      (f : InvoiceFilter)
      → Leaves (query_row env (λ db. some (length (where_matches f db.invoices))))
  unfolding query_row
  count-Leaves f w = ground arith

  count_page-Leaves : (f : InvoiceFilter) (r : Result (Option ℕ)) → Leaves (count_page env f r)
  unfolding count_page
  count_page-Leaves f (err e) w = SameTables-refl w
  count_page-Leaves f (ok none) w = SameTables-refl w
  count_page-Leaves f (ok (some total)) w = page-Leaves f w

  pub list-Leaves : (f : InvoiceFilter) → Leaves (list env f)
  unfolding list
  list-Leaves f = bind-Leaves _ (count_page env f) (count-Leaves f) (count_page-Leaves f)
