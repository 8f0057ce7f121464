-- ===== src/Service/Submit.antt =====
-- `SubmitInvoice` with the worker pool as its queue (internal/service/invoice_service.go,
-- internal/worker/adapter.go).
use tax_module.Prelude.{
  ℕ, ◌+◌, String, Option, none, some, List, [], ◌∷◌, ◌++◌, ltb, length, if◌then◌else◌, ◌≡◌, refl,
  ap, ◌∙◌, ◌⊎◌, inl, inr, is_some, true, arith, Bool-cases,
}
use tax_module.Worker.Settings.{PoolConfig}
use tax_module.Domain.Status.{
  InvoiceStatus, draft, submitted, failed, can_transition_to, status_text,
}
use tax_module.Domain.Invoice.{Invoice, Uuid, InvoiceStatusHistory}
use tax_module.Domain.Errors.{Error}
use tax_module.Store.{Result, ok, err, World, Env, time_now, uuid_new}
use tax_module.Repository.Status.{
  Ends, Ends-quiet, Ends-tick, invoice_of, status_of, row_status, get_by_id-world, get_by_id-ok,
  update_status-outcome, update_status-SameOthers, update_status-queue,
  add_status_history-SameStatuses, add_status_history-queue,
}
use tax_module.Repository.Invoices.{update_status, get_by_id, add_status_history}
use tax_module.Worker.Job.{Job, publish_invoice}
use tax_module.Worker.Queue.{enqueue_publish}
use tax_module.Service.{JobEnqueuer, submit_updated, submit_found, submit_invoice}

-- `worker.Adapter`
abbrev pub adapter : PoolConfig → JobEnqueuer
adapter cfg = record { enqueue = enqueue_publish cfg }

-- The queue after a job was offered to it.
abbrev pub offered : PoolConfig → Job → List Job → List Job
offered cfg job q = if ltb (length q) cfg.queue_size then q ++ job ∷ [] else q

abbrev pub publish_job : Uuid → Job
publish_job i = record { job_type = publish_invoice; invoice_id = i }

abbrev pub IsSubmitted : Option InvoiceStatus → Type 0
IsSubmitted s = s ≡ some submitted

-- What a call of `SubmitInvoice` did: it failed and left the tables and the queue alone, or it
-- answered nil for a draft or failed invoice that is now submitted and offered to the queue.
pub record Accepted (cfg : PoolConfig) (i : Uuid) (w w' : World) : Type 0 where
  pub from : (status_of i w ≡ some draft) ⊎ (status_of i w ≡ some failed)
  pub ends : Ends i IsSubmitted w w'
  pub queued : w'.queue ≡ offered cfg (publish_job i) w.queue

pub record Rejected (w w' : World) : Type 0 where
  pub same_db : w'.db ≡ w.db
  pub same_queue : w'.queue ≡ w.queue

abbrev pub SubmitOutcome : PoolConfig → Uuid → Option Error → World → World → Type 0
SubmitOutcome cfg i (some _) w w' = Rejected w w'
SubmitOutcome cfg i none w w' = Accepted cfg i w w'

submittable :
    (s : InvoiceStatus) → can_transition_to s submitted ≡ true → (s ≡ draft) ⊎ (s ≡ failed)
unfolding can_transition_to
submittable draft h = inl refl
submittable failed h = inr refl
submittable _ h = cc

enqueue_publish-world :
    (cfg : PoolConfig) (i : Uuid) (w : World)
    → (enqueue_publish cfg i w).1 ≡ record w { queue = offered cfg (publish_job i) w.queue }
unfolding enqueue_publish
enqueue_publish-world cfg i w = ground arith

module _ (env : Env) (cfg : PoolConfig) (i : Uuid) where
  updated-outcome :
      (row : Invoice) (e : Option Error) (w w' : World)
      → (status_of i w ≡ some draft) ⊎ (status_of i w ≡ some failed)
      → ((e ≡ none) × Ends i IsSubmitted w w') ⊎ ((is_some e ≡ true) × (w'.db ≡ w.db))
      → w'.queue ≡ w.queue
      → let (e', v) = submit_updated env (adapter cfg) i row e w' in SubmitOutcome cfg i e' w v
  unfolding submit_updated uuid_new time_now
  updated-outcome row (some e) w w' from (inl (fine, _)) q = cc
  updated-outcome row (some e) w w' from (inr (_, kept)) q = record {
    same_db = kept;
    same_queue = q;
  }
  updated-outcome row none w w' from (inr (e, _)) q = cc
  updated-outcome row none w w' from (inl (_, h)) q =
      let w₁ : World = record w' { tick = w'.tick + 1 + 1 } in
      let entry : InvoiceStatusHistory = record {
        id = env.new_uuid w'.tick;
        invoice_id = i;
        from_status = status_text row.status;
        to_status = status_text submitted;
        reason = "submitted via API";
        changed_by = "api";
        created_at = env.now (w'.tick + 1);
      } in
      let w₂ = (add_status_history env entry w₁).1 in
      let h₂ =
        Ends-quiet (Ends-tick h (w'.tick + 1 + 1)) (add_status_history-SameStatuses env entry w₁) in
      rw (enqueue_publish-world cfg i w₂) (record {
        from = from;
        ends = record { others = h₂.others; status = h₂.status };
        queued = ap (offered cfg (publish_job i)) (add_status_history-queue env entry w₁ ∙ q);
      })

  found-outcome :
      (row : Invoice) (w : World)
      → invoice_of i w ≡ some row
      → let (e, w') = submit_found env (adapter cfg) i (ok row) w in SubmitOutcome cfg i e w w'
  unfolding submit_found
  found-outcome row w found = elim (Bool-cases (can_transition_to row.status submitted)) [
    | inr no' ↦ rw no' (record { same_db = refl; same_queue = refl })
    | inl allowed ↦
        let reason : String = "submitted via API" in
        let (failure, w') = update_status env i submitted reason w in
        rw allowed (
          updated-outcome row failure w w' (from_of row allowed found)
            (elim (update_status-outcome env i submitted reason w) [
              | inr (e, kept) ↦ inr (e, kept)
              | inl (fine, (old, now, sent, ended, _, after, _, _)) ↦ inl (
                fine,
                record {
                  others = (update_status-SameOthers env i submitted reason w).others;
                  status = ap row_status after;
                },
              )
            ])
            (update_status-queue env i submitted reason w))
  ]
    where
      from_of :
          (v : Invoice)
          → can_transition_to v.status submitted ≡ true
          → invoice_of i w ≡ some v
          → (status_of i w ≡ some draft) ⊎ (status_of i w ≡ some failed)
      from_of v allowed here = elim (submittable v.status allowed) [
        | inl d ↦ inl (ap row_status here ∙ ap some d)
        | inr f ↦ inr (ap row_status here ∙ ap some f)
      ]

  answer-outcome :
      (found : Result Invoice) (w : World)
      → ((row : Invoice) → found ≡ ok row → invoice_of i w ≡ some row)
      → let (e, w') = submit_found env (adapter cfg) i found w in SubmitOutcome cfg i e w w'
  unfolding submit_found
  answer-outcome (err e) w h = record { same_db = refl; same_queue = refl }
  answer-outcome (ok row) w h = found-outcome row w (h row refl)

  from_tick :
      (e : Option Error) (w w' : World) (n : ℕ)
      → SubmitOutcome cfg i e (record w { tick = n }) w'
      → SubmitOutcome cfg i e w w'
  from_tick (some _) w w' n r = record { same_db = r.same_db; same_queue = r.same_queue }
  from_tick none w w' n a = record {
    from = a.from;
    ends = record { others = a.ends.others; status = a.ends.status };
    queued = a.queued;
  }

  -- Whatever the database answers: `SubmitInvoice` answers an error and leaves all tables and the
  -- queue as they were, or it answers nil and then the invoice was a draft or failed, it is
  -- submitted now, no other invoice has changed its status, and a publish job stands at the end of
  -- the queue unless the queue was full.
  pub submit_invoice-outcome :
      (w : World) → let (e, w') = submit_invoice env (adapter cfg) i w in SubmitOutcome cfg i e w w'
  unfolding submit_invoice
  submit_invoice-outcome w =
      let found = (get_by_id env i w).0 in
      let w₁ : World = record w { tick = w.tick + 1 } in
      rw (get_by_id-world env i w) (
        from_tick _ w _ (w.tick + 1)
          (answer-outcome found w₁ (λ row e. get_by_id-ok env i w row e)))
