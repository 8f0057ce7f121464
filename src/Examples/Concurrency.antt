-- ===== src/Examples/Concurrency.antt =====
-- Schedules of the worker pool (internal/worker/pool.go).
use tax_module.Prelude.{
  true, ℕ, ◌==◌, String, Option, none, some, List, [], ◌∷◌, false, ◌≡◌, refl, arith, ◌++◌,
}
use tax_module.Worker.Settings.{PoolConfig}
use tax_module.Domain.Status.{submitted, completed}
use tax_module.Domain.Invoice.{Invoice}
use tax_module.Domain.Errors.{plain}
use tax_module.Domain.Publisher.{InvoicePublisher}
use tax_module.Store.{World, ok, err}
use tax_module.Repository.Status.{invoice_of, status_of}
use tax_module.Worker.Job.{Job}
use tax_module.Service.Submit.{publish_job}
use tax_module.System.{turn, poll_round}
use tax_module.System
use tax_module.Concurrency.{run_alone}
use tax_module.Concurrency.Programs.{poller_prog, job_prog}
use tax_module.Concurrency.Pool.{
  Turn, Request, submit, request_arrives, request_acts, worker_acts, worker_stops, poller_acts,
  shutdown, start, run, request_prog,
}
use tax_module.Concurrency.Pool.{step, worker_step}
use tax_module.Concurrency.Programs.{dispatch_prog}
use tax_module.Concurrency.Publishing.{
  publish_prog, found_prog, begin_prog, after_prog, send_prog, items_prog, result_prog,
  complete_prog, updated_prog, status_prog, error_prog, retry_prog,
}
use tax_module.Repository.Invoices.{
  get_by_id, get_items_by_invoice_id, update, update_status, add_status_history, time_if,
}
use tax_module.Repository.Rows.{update_invoices, insert_history}
use tax_module.Store.{exec, query, query_row, time_now, uuid_new}
use tax_module.Worker.Publish.{record_completion}
use tax_module.Domain.Errors.{as_viettel, error_text}
use tax_module.Concurrency.Calls.{bill}
use tax_module.Concurrency.Intact.{IsIntact}
use tax_module.Concurrency.Drafts.{HasLeft, schedule-HasLeft}
use tax_module.Concurrency.Statuses.{AllLive, schedule-AllLive}
use tax_module.Concurrency.Shutdown.{wait_returns, shutdown_lem}
use tax_module.Concurrency.Pool.{System as PoolSystem, running}
use tax_module.Concurrency.Integrity.{schedule-IsIntact}
use tax_module.Concurrency.Alone.Programs.{event_of, run_alone-step}
use tax_module.Examples.{
  quiet_env, order, coffee, shop, pool_config, busy_publisher, busy_publisher-laws,
}

abbrev pub queued : World
queued = record (shop submitted) { queue = publish_job 1 ∷ [] }

-- A submission, the worker and the poller by turns.
abbrev pub mixed : List Turn
mixed =
    request_arrives (submit 1)
    ∷ request_acts 0
    ∷ worker_acts 0
    ∷ poller_acts
    ∷ worker_acts 0
    ∷ poller_acts
    ∷ request_acts 0
    ∷ shutdown
    ∷ poller_acts
    ∷ worker_stops 0
    ∷ []

pub fresh_uuids : (n : ℕ) → (quiet_env.new_uuid n == 1) ≡ false
fresh_uuids n = ground arith

schedule-IsIntact_example :
    IsIntact 1
      (bill (order submitted))
      (coffee ∷ [])
      (run quiet_env pool_config busy_publisher mixed (start pool_config queued)).world.db
schedule-IsIntact_example =
    schedule-IsIntact quiet_env 1 (bill (order submitted)) (coffee ∷ []) fresh_uuids pool_config
      busy_publisher busy_publisher-laws mixed queued (record { billed = refl; itemised = refl })

worker_alone :
    ((r : Request)
      → run_alone (request_prog quiet_env pool_config busy_publisher r) queued
        ≡ System.step quiet_env pool_config busy_publisher
            (event_of quiet_env pool_config busy_publisher r)
            queued)
    × (run_alone (poller_prog quiet_env pool_config) queued
        ≡ System.step quiet_env pool_config busy_publisher poll_round queued)
    × ((job : Job) (jobs : List Job)
        → queued.queue ≡ job ∷ jobs
        → run_alone
            (job_prog quiet_env pool_config busy_publisher job)
            (record queued { queue = jobs })
          ≡ System.step quiet_env pool_config busy_publisher turn queued)
worker_alone = run_alone-step quiet_env pool_config busy_publisher queued

-- Two workers.
abbrev two_workers : PoolConfig
two_workers = record pool_config { pool_size = 2 }

-- It takes the first invoice that is sent, and refuses what comes later.
abbrev once_publisher : InvoicePublisher
once_publisher = record busy_publisher {
  create_invoice = λ invoice w. elim w.sent [
    | [] ↦ (
      (invoice, ok "K24TAA7"),
      record w {
        sent =
            record {
              method = "POST";
              url = "/create";
              content_type = "";
              cookie = none;
              body = none;
            }
            ∷ [];
      },
    )
    | _ ↦ ((invoice, err (plain "transaction uuid exists")), w)
  ];
}

-- Both workers have read the invoice when the first one completes it.
abbrev both_read : List Turn
both_read = worker_acts 0 ∷ worker_acts 0 ∷ worker_acts 1 ∷ worker_acts 1 ∷ []

abbrev first_completes : List Turn
first_completes =
    worker_acts 0
    ∷ worker_acts 0
    ∷ worker_acts 0
    ∷ worker_acts 0
    ∷ worker_acts 0
    ∷ worker_acts 0
    ∷ worker_acts 0
    ∷ []

abbrev second_fails : List Turn
second_fails =
    worker_acts 1
    ∷ worker_acts 1
    ∷ worker_acts 1
    ∷ worker_acts 1
    ∷ worker_acts 1
    ∷ worker_acts 1
    ∷ []

abbrev twice_queued : World
twice_queued = record (shop submitted) { queue = publish_job 1 ∷ publish_job 1 ∷ [] }

abbrev after : List Turn → World
after ts = (run quiet_env two_workers once_publisher ts (start two_workers twice_queued)).world

abbrev number_of : Option Invoice → Option String
number_of none = none
number_of (some row) = row.external_id

-- The first worker has completed the invoice under its number, and then the second one takes it back
-- to submitted and its number away.
completed_then_lost :
    (status_of 1 (after (both_read ++ first_completes)) ≡ some completed)
    × (number_of (invoice_of 1 (after (both_read ++ first_completes))) ≡ some "K24TAA7")
    × (status_of 1 (after (both_read ++ first_completes ++ second_fails)) ≡ some submitted)
    × (number_of (invoice_of 1 (after (both_read ++ first_completes ++ second_fails))) ≡ none)
unfolding run step worker_step job_prog dispatch_prog publish_prog found_prog begin_prog after_prog
    send_prog items_prog result_prog complete_prog updated_prog status_prog error_prog retry_prog
    get_by_id get_items_by_invoice_id update update_status add_status_history time_if exec query
    query_row time_now uuid_new update_invoices insert_history record_completion as_viettel
    error_text
completed_then_lost = (refl, refl, refl, refl)

schedule-AllLive_example :
    AllLive (run quiet_env pool_config busy_publisher mixed (start pool_config queued)).world.db
schedule-AllLive_example =
    schedule-AllLive quiet_env pool_config busy_publisher busy_publisher-laws mixed queued
      (refl, tt)

schedule-HasLeft_example :
    HasLeft 1 (run quiet_env pool_config busy_publisher mixed (start pool_config queued)).world
schedule-HasLeft_example =
    schedule-HasLeft quiet_env 1 pool_config busy_publisher busy_publisher-laws mixed queued
      (submitted, refl, λ e. cc)

-- The worker has just received its job when the program is told to stop, and the poller waits.
abbrev at_work : PoolSystem
at_work = record (start pool_config queued) {
  workers = running (job_prog quiet_env pool_config busy_publisher (publish_job 1)) ∷ [];
}

shutdown_lem_example :
    let told = step quiet_env pool_config busy_publisher shutdown at_work in
    (ts : List Turn) × (wait_returns (run quiet_env pool_config busy_publisher ts told) ≡ true)
    × ((more : List Turn)
        → wait_returns (
            run quiet_env pool_config busy_publisher more
              (run quiet_env pool_config busy_publisher ts told))
          ≡ true)
shutdown_lem_example = shutdown_lem quiet_env pool_config busy_publisher at_work
