-- ===== src/Worker/Job.antt =====
-- Units of work (internal/worker/pool.go).
use tax_module.Prelude.{String}
use tax_module.Domain.Invoice.{Uuid}

-- `type JobType string` with its constants; `unknown_type` is any other text.
pub data JobType : Type 0 where
  publish_invoice poll_status : JobType
  unknown_type : String → JobType

pub record Job : Type 0 where
  pub job_type : JobType
  pub invoice_id : Uuid
