-- ===== src/Worker/Queue/Poller.antt =====
-- One round of the poller (`pollPendingInvoices`, internal/worker/pool.go).
use mathlib.Core.List.{append-nil, append_assoc}
use tax_module.Prelude.{
  ℕ, zero, suc, ◌+◌, ◌-◌, ◌≤◌, List, [], ◌∷◌, ◌++◌, map, take, length, ◌≡◌, none, some, arith,
  length-append, refl, ◌≢◌, ◌⊎◌, inl, inr, Bool-cases, false, Filters, nothing, kept, left_out,
  Pairwise,
}
use tax_module.Worker.Settings.{PoolConfig}
use tax_module.Domain.Status.{submitted, processing, status_eq}
use tax_module.Domain.Status.Equality.{status_eq_iff}
use tax_module.Domain.Invoice.{Invoice}
use tax_module.Store.{World, Env}
use tax_module.Repository.Rows.{where_pending}
use tax_module.Repository.Reliable.{IsReliable, get_pending-reliable}
use tax_module.Worker.Job.{Job, publish_invoice, poll_status}
use tax_module.Worker.Queue.{
  enqueue, pending_job, enqueue_pending, poll_pending_invoices, new_queue_full_error,
}

-- Submitted or in processing.
abbrev pub IsPending : Invoice → Type 0
IsPending row = (row.status ≡ submitted) ⊎ (row.status ≡ processing)

-- The job that an invoice is due: a poll where it is in processing, a publication where it is not.
abbrev pub IsJobFor : Invoice → Job → Type 0
IsJobFor row job =
    (job.invoice_id ≡ row.id)
    × (((row.status ≡ processing) × (job.job_type ≡ poll_status))
        ⊎ ((row.status ≢ processing) × (job.job_type ≡ publish_invoice)))

where_pending-Filters : (rows : List Invoice) → Filters IsPending rows (where_pending rows)
where_pending-Filters [] = nothing
where_pending-Filters (row ∷ rows) = elim (Bool-cases (status_eq row.status submitted)) [
  | inl sent ↦ rw sent (kept (inl ((status_eq_iff _ _).0 sent)) (where_pending-Filters rows))
  | inr unsent ↦ elim (Bool-cases (status_eq row.status processing)) [
    | inl at_work ↦
        rw (unsent, at_work)
          (kept (inr ((status_eq_iff _ _).0 at_work)) (where_pending-Filters rows))
    | inr neither ↦
        rw (unsent, neither)
          (left_out (not_pending row unsent neither) (where_pending-Filters rows))
  ]
]
  where
    not_pending :
        (row : Invoice)
        → status_eq row.status submitted ≡ false
        → status_eq row.status processing ≡ false
        → ¬ IsPending row
    not_pending row unsent neither (inl e) =
        absurd (ground (arith, unsent, (status_eq_iff row.status submitted).1 e))
    not_pending row unsent neither (inr e) =
        absurd (ground (arith, neither, (status_eq_iff row.status processing).1 e))

module _ (cfg : PoolConfig) where
  enqueue_full :
      (job : Job) (w : World)
      → length w.queue + 0 ≡ cfg.queue_size
      → enqueue cfg job w ≡ (some new_queue_full_error, w)
  unfolding enqueue
  enqueue_full job w h = ground arith

  enqueue_room :
      (job : Job) (w : World) (k : ℕ)
      → length w.queue + suc k ≡ cfg.queue_size
      → enqueue cfg job w ≡ (none, record w { queue = w.queue ++ job ∷ [] })
  unfolding enqueue
  enqueue_room job w k h = ground arith

  enqueue_pending-take :
      (invoices : List Invoice) (k : ℕ) (w : World)
      → length w.queue + k ≡ cfg.queue_size
      → (enqueue_pending cfg invoices w).1
        ≡ record w { queue = w.queue ++ map (pending_job cfg) (take k invoices) }
  unfolding enqueue_pending
  enqueue_pending-take [] zero w h = rw append-nil
  enqueue_pending-take [] (suc k) w h = rw append-nil
  enqueue_pending-take (v ∷ vs) zero w h =
      ground (arith, enqueue_full (pending_job cfg v) w h, append-nil w.queue)
  enqueue_pending-take (v ∷ vs) (suc k) w h =
      let job = pending_job cfg v in
      let w' : World = record w { queue = w.queue ++ job ∷ [] } in
      ground (
        arith,
        enqueue_room job w k h,
        enqueue_pending-take vs k w' (omega (arith, length-append w.queue (job ∷ []))),
        append_assoc w.queue (job ∷ []) (map (pending_job cfg) (take k vs)),
      )

  pending_job-IsJobFor : (row : Invoice) → IsJobFor row (pending_job cfg row)
  pending_job-IsJobFor row = elim (Bool-cases (status_eq row.status processing)) [
    | inl at_work ↦ (refl, inl ((status_eq_iff _ _).0 at_work, rw at_work refl))
    | inr idle ↦ (
      refl,
      inr (
        (λ e. absurd (ground (arith, idle, (status_eq_iff row.status processing).1 e))),
        rw idle refl,
      ),
    )
  ]

  map-IsJobFor : (rows : List Invoice) → Pairwise IsJobFor rows (map (pending_job cfg) rows)
  map-IsJobFor [] = tt
  map-IsJobFor (row ∷ rows) = (pending_job-IsJobFor row, map-IsJobFor rows)

  -- While the database works, one round of the poller appends to a queue within its capacity a job
  -- for each of the invoices in submitted or processing that the server lists first, in that order,
  -- up to the room that the queue has: a poll job for one in processing, a publish job for the
  -- others. It changes no table.
  pub poll_pending_invoices_lem :
      (env : Env) (reliable : IsReliable env) (w : World)
      → length w.queue ≤ cfg.queue_size
      → (pending : List Invoice) × (jobs : List Job) × Filters IsPending w.db.invoices pending
        × Pairwise IsJobFor
            (take
              (cfg.queue_size - length w.queue)
              (take cfg.queue_size (env.order_by_updated_at pending)))
            jobs
        × ((poll_pending_invoices cfg env w).1
            ≡ record w { tick = w.tick + 1; queue = w.queue ++ jobs })
  unfolding poll_pending_invoices
  poll_pending_invoices_lem env reliable w h =
      let pending = where_pending w.db.invoices in
      let room = cfg.queue_size - length w.queue in
      let due = take cfg.queue_size (env.order_by_updated_at pending) in
      (
        pending,
        map (pending_job cfg) (take room due),
        where_pending-Filters w.db.invoices,
        map-IsJobFor (take room due),
        rw (get_pending-reliable env reliable cfg.queue_size w)
            (enqueue_pending-take due room (record w { tick = w.tick + 1 }) (omega arith)),
      )
