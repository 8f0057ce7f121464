-- ===== src/Examples/Worker.antt =====
-- Jobs for a submitted and a processing invoice (internal/worker/pool.go).
use tax_module.Prelude.{none, some, [], ◌∷◌, take, ◌≡◌, refl, arith, Filters, Pairwise}
use tax_module.Domain.Status.{submitted, processing, completed, failed}
use tax_module.Domain.Errors.{as_viettel, plain}
use tax_module.Worker.Job.{Job, poll_status}
use tax_module.Worker.Publish.{permanent, handle_publish, handle_publish_error}
use tax_module.Worker.Publish.Moves.{PublishMove, handle_publish-moves}
use tax_module.Worker.Publish.Errors.{ErrorOutcome, handle_publish_error-RowIs}
use tax_module.Worker.Publish.Retries.{
  AlwaysFails, publish_times, publish_times-remaining, publish_times-exhausted,
}
use tax_module.Worker.Poll.{handle_poll}
use tax_module.Worker.Poll.Moves.{PollMove, handle_poll-moves, handle_poll-completes}
use tax_module.Worker.Queue.{poll_pending_invoices}
use tax_module.Worker.Queue.Poller.{IsPending, IsJobFor, poll_pending_invoices_lem}
use tax_module.Repository.Reliable.{RowIs}
use tax_module.Repository.Status.{Ends, status_of}
use tax_module.Store.{World}
use tax_module.Examples.{
  quiet_env, quiet_env-IsReliable, order, shop, shop-RowIs, pool_config, busy_publisher,
  busy_publisher-laws, List, Invoice,
}

plain_retried : permanent (plain "viettel is busy") ≡ none
unfolding as_viettel
plain_retried = refl

busy_publisher-AlwaysFails : AlwaysFails busy_publisher
busy_publisher-AlwaysFails = record {
  failure = λ invoice w. plain "viettel is busy";
  fails = λ invoice w. refl;
  not_permanent = λ invoice w. plain_retried;
}

handle_publish-moves_example :
    Ends 1
      (PublishMove (status_of 1 (shop submitted)))
      (shop submitted)
      (handle_publish quiet_env pool_config busy_publisher 1 (shop submitted)).1
handle_publish-moves_example =
    handle_publish-moves quiet_env pool_config busy_publisher busy_publisher-laws 1 (shop submitted)

handle_publish_error-RowIs_example :
    ErrorOutcome pool_config
      (order submitted)
      0
      none
      (permanent (plain "viettel is busy"))
      (handle_publish_error quiet_env pool_config
        (order submitted)
        (plain "viettel is busy")
        (shop processing)).1
handle_publish_error-RowIs_example =
    handle_publish_error-RowIs quiet_env quiet_env-IsReliable pool_config (order submitted)
      (shop-RowIs processing) (plain "viettel is busy")

one_attempt_counted :
    RowIs 1
      (publish_times quiet_env pool_config busy_publisher 2 1 (shop submitted))
      submitted
      2
      none
one_attempt_counted =
    publish_times-remaining quiet_env quiet_env-IsReliable pool_config busy_publisher
      busy_publisher-laws busy_publisher-AlwaysFails 1 2 (shop-RowIs submitted) (omega arith)

publish_times-exhausted_example :
    RowIs 1 (publish_times quiet_env pool_config busy_publisher 5 1 (shop submitted)) failed 3 none
publish_times-exhausted_example =
    publish_times-exhausted quiet_env quiet_env-IsReliable pool_config busy_publisher
      busy_publisher-laws busy_publisher-AlwaysFails 1 5 (shop-RowIs submitted) (omega arith)
      (omega arith)

coffee_polled :
    Ends 1
      (PollMove (status_of 1 (shop processing)))
      (shop processing)
      (handle_poll quiet_env busy_publisher 1 (shop processing)).1
coffee_polled = handle_poll-moves quiet_env busy_publisher busy_publisher-laws 1 (shop processing)

handle_poll-completes_example :
    RowIs 1 (handle_poll quiet_env busy_publisher 1 (shop failed)).1 completed 0 (some "K24TAA1")
handle_poll-completes_example =
    handle_poll-completes quiet_env quiet_env-IsReliable busy_publisher busy_publisher-laws 1
      "c0ffee" (shop-RowIs failed) refl refl refl refl

abbrev poll_job : Job
poll_job = record { job_type = poll_status; invoice_id = 1 }

-- A queue with one job, which leaves room for one more.
abbrev waiting_shop : World
waiting_shop = record (shop submitted) { queue = poll_job ∷ [] }

poll_pending_invoices_lem_example :
    (pending : List Invoice) × (jobs : List Job) × Filters IsPending (order submitted ∷ []) pending
    × Pairwise IsJobFor (take 1 (take 2 pending)) jobs
    × ((poll_pending_invoices pool_config quiet_env waiting_shop).1
        ≡ record waiting_shop { tick = 1; queue = poll_job ∷ jobs })
poll_pending_invoices_lem_example =
    poll_pending_invoices_lem pool_config quiet_env quiet_env-IsReliable waiting_shop (omega arith)
