-- ===== src/Repository/Lookups.antt =====
-- The lookups of an invoice by its external id and its transaction uuid, and the audit log
-- (internal/repository/postgres/invoice_repo.go). The service and the worker do not call them.
use Prim.Native.String.{◌++◌}
use text.Mathlib.Text.{◌==◌ as str_eq}
use tax_module.Prelude.{String, Bool, false, Option, none, some, List, [], ◌∷◌, if◌then◌else◌}
use tax_module.Domain.Invoice.{Invoice, AuditLog}
use tax_module.Domain.Errors.{Error}
use tax_module.Store.{Result, Env, M, pure, ◌>>=◌, exec, query_row}
use tax_module.Repository.Rows.{insert_audit_log}
use tax_module.Repository.Invoices.{check_inserted, check_row}

-- `column = $1`, where NULL equals nothing.
abbrev pub holds : String → Option String → Bool
holds value none = false
holds value (some s) = str_eq s value

-- The first row whose column holds the value, none where there is no such row.
abbrev pub find_where : (Invoice → Option String) → String → List Invoice → Option Invoice
find_where column value [] = none
find_where column value (row ∷ rows) =
    if holds value (column row) then some row else find_where column value rows

module _ (env : Env) where
  unfoldable pub get_by_external_id : String → M (Result Invoice)
  unfolding query_row
  get_by_external_id external_id = do
    row ←
        query_row env
          (λ db. find_where (λ r. r.external_id) external_id (env.table_order db.invoices))
    pure (
        check_row "failed to get invoice by external_id"
          ("invoice not found for external_id: " ++ external_id) row)

  unfoldable pub get_by_transaction_uuid : String → M (Result Invoice)
  unfolding query_row
  get_by_transaction_uuid transaction_uuid = do
    row ←
        query_row env (λ db.
          find_where (λ r. r.transaction_uuid) transaction_uuid (env.table_order db.invoices))
    pure (
        check_row "failed to get invoice by transaction_uuid"
          ("invoice not found for transaction_uuid: " ++ transaction_uuid) row)

  unfoldable pub add_audit_log : AuditLog → M (Option Error)
  unfolding exec insert_audit_log
  add_audit_log a = do
    tag ← exec env (insert_audit_log a)
    pure (check_inserted "failed to add audit log" tag)
