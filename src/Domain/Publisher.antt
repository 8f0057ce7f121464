-- ===== src/Domain/Publisher.antt =====
-- The port to the third party (`InvoicePublisher`, internal/domain/invoice.go), and what its clients
-- in this program rely on.
use tax_module.Prelude.{String, Option, ◌≡◌}
use tax_module.Prelude.Int.{ℤ}
use tax_module.Domain.Invoice.{Invoice}
use tax_module.Domain.Errors.{Error}
use tax_module.Store.{Result, World, M}

-- The results of `QueryStatus`; `err` is nil when it is `none`.
pub record QueryReply : Type 0 where
  pub status : String
  pub invoice_no : String
  pub raw_response : Option String
  pub failure : Option Error

-- The results of `ReportToAuthority`.
pub record ReportReply : Type 0 where
  pub success_count : ℤ
  pub error_count : ℤ
  pub failure : Option Error

-- `CreateInvoice` takes a pointer: the invoice comes back as it left it.
pub record InvoicePublisher : Type 0 where
  pub create_invoice : Invoice → M (Invoice × Result String)
  pub query_status : String → M QueryReply
  pub report_to_authority : String → String → String → M ReportReply
  pub download_invoice_file : String → String → M (Result String)

-- The tables of invoices and the queue are as they were.
pub record SameTables (w w' : World) : Type 0 where
  pub same_invoices : w'.db.invoices ≡ w.db.invoices
  pub same_items : w'.db.invoice_items ≡ w.db.invoice_items
  pub same_history : w'.db.invoice_status_history ≡ w.db.invoice_status_history
  pub same_queue : w'.queue ≡ w.queue

-- A publisher writes none of the tables of invoices, and of the invoice in memory the
-- transaction uuid at most.
pub record PublisherLaws (p : InvoicePublisher) : Type 0 where
  pub create_tables : (invoice : Invoice) (w : World) → SameTables w (p.create_invoice invoice w).1
  pub create_uuid :
      (invoice : Invoice) (w : World)
      → (u : Option String) × ((p.create_invoice invoice w).0.0
          ≡ record invoice { transaction_uuid = u })
  pub query_tables : (uuid : String) (w : World) → SameTables w (p.query_status uuid w).1
  pub report_tables :
      (uuid start_date end_date : String) (w : World)
      → SameTables w (p.report_to_authority uuid start_date end_date w).1
  pub download_tables :
      (number file_type : String) (w : World)
      → SameTables w (p.download_invoice_file number file_type w).1
