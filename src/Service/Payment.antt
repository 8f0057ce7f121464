-- ===== src/Service/Payment.antt =====
-- `UpdateTransactionHash` writes to drafts only (internal/service/invoice_service.go).
use tax_module.Prelude.{String, Option, none, some, ◌≡◌, ◌⊎◌, is_some, true}
use tax_module.Domain.Status.{draft}
use tax_module.Domain.Invoice.{Invoice, Uuid, Time}
use tax_module.Domain.Errors.{Error}
use tax_module.Store.{World}
use tax_module.Repository.Status.{invoice_of}

-- The hash was written into the row of an invoice that satisfies P.
pub record HashWritten (P : Invoice → Type 0) (i : Uuid) (hash : String) (w w' : World)
    : Type 0 where
  pub row : Invoice
  pub now : Time
  pub before : invoice_of i w ≡ some row
  pub allowed : P row
  pub after : invoice_of i w' ≡ some (record row { transaction_hash = hash; updated_at = now })

abbrev pub IsDraft : Invoice → Type 0
IsDraft row = row.status ≡ draft

-- Written with a nil answer, or an error and the tables as they were.
abbrev pub HashOutcome : (Invoice → Type 0) → Uuid → String → Option Error → World → World → Type 0
HashOutcome P i hash e w w' =
    ((e ≡ none) × HashWritten P i hash w w') ⊎ ((is_some e ≡ true) × (w'.db ≡ w.db))
