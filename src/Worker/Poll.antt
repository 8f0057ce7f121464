-- ===== src/Worker/Poll.antt =====
-- The handler of poll jobs, and the dispatch on the type of a job (internal/worker/pool.go).
pub mod Moves
pub mod Final
use Prim.Native.String.{◌++◌}
use text.Mathlib.Text.{◌==◌ as str_eq}
use tax_module.Prelude.{ℕ, String, Bool, ◌||◌, Option, none, some, is_empty, if◌then◌else◌}
use tax_module.Worker.Settings.{PoolConfig}
use tax_module.Domain.Status.{completed}
use tax_module.Domain.Invoice.{Invoice, Uuid}
use tax_module.Domain.Publisher.{InvoicePublisher, QueryReply}
use tax_module.Store.{Result, ok, err, Env, M, pure, ◌>>=◌, ◌>>◌, time_now}
use tax_module.Repository.Invoices.{get_by_id, update, update_status}
use tax_module.Worker.Job.{Job, JobType, publish_invoice, poll_status, unknown_type}
use tax_module.Worker.Publish.{handle_publish}

abbrev done : M (Unit {0})
done = pure tt

module _ (env : Env) where
  unfoldable pub poll_completed : Uuid → Invoice → QueryReply → M (Unit {0})
  poll_completed id invoice reply = do
    now ← time_now env
    update env (record invoice {
      external_id = some reply.invoice_no;
      completed_at = some now;
      metadata = reply.raw_response;
      updated_at = now;
    })
    update_status env id completed ("viettel confirmed, invoiceNo=" ++ reply.invoice_no)
    done

  unfoldable pub poll_unfinished : Invoice → QueryReply → M (Unit {0})
  poll_unfinished invoice reply = do
    now ← time_now env
    update env (record invoice { metadata = reply.raw_response; updated_at = now })
    done

  -- The `switch` on the polled status; another text changes nothing.
  unfoldable pub poll_switch : Uuid → Invoice → QueryReply → M (Unit {0})
  poll_switch id invoice reply =
      if str_eq reply.status "completed"
      then poll_completed id invoice reply
      else (if str_eq reply.status "pending" || str_eq reply.status "processing"
          then poll_unfinished invoice reply
          else done)

  unfoldable pub poll_reply : Uuid → Invoice → QueryReply → M (Unit {0})
  poll_reply id invoice reply = elim reply.failure [
    | some _ ↦ done
    | none ↦ poll_switch id invoice reply
  ]

  module _ (publisher : InvoicePublisher) where
    unfoldable pub poll_uuid : Uuid → Invoice → Option String → M (Unit {0})
    poll_uuid id invoice none = done
    poll_uuid id invoice (some uuid) =
        if is_empty uuid
        then done
        else (publisher.query_status uuid >>= λ reply. poll_reply id invoice reply)

    unfoldable pub poll_found : Uuid → Result Invoice → M (Unit {0})
    poll_found id (err _) = done
    poll_found id (ok invoice) = poll_uuid id invoice invoice.transaction_uuid

    unfoldable pub handle_poll : Uuid → M (Unit {0})
    unfolding poll_found poll_uuid poll_reply poll_switch poll_completed poll_unfinished
    handle_poll id = do found ← get_by_id env id; poll_found id found

    module _ (cfg : PoolConfig) where
      unfoldable pub dispatch : JobType → Uuid → M (Unit {0})
      dispatch publish_invoice id = handle_publish env cfg publisher id
      dispatch poll_status id = handle_poll id
      dispatch (unknown_type _) id = done

      unfoldable pub process_job : Job → M (Unit {0})
      unfolding dispatch
      process_job job = dispatch job.job_type job.invoice_id
