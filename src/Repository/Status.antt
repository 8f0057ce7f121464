-- ===== src/Repository/Status.antt =====
-- How the repository's statements move the statuses of invoices
-- (internal/repository/postgres/invoice_repo.go).
use tax_module.Prelude.{
  ℕ, String, Bool, true, false, Option, none, some, List, [], ◌∷◌, ◌≡◌, refl, sym, subst, ◌≢◌, ◌⊎◌,
  inl, inr, ◌+◌, ap, ◌∙◌, arith, Option-cases, is_some,
}
use tax_module.Domain.Status.{InvoiceStatus, submitted, completed, status_eq}
use tax_module.Domain.Invoice.{Invoice, InvoiceStatusHistory, Time, Uuid}
use tax_module.Store.{World, Env, exec, ok, Database}
use tax_module.Repository.Rows.{
  find_invoice, update_where_id, update_invoices, count_id, set_columns, set_status, or_else,
  find-update, find-count, count-find,
}
use tax_module.Repository.Invoices.{
  add_status_history, check_affected, get_by_id, update, update_status, time_if,
  get_items_by_invoice_id,
}

abbrev pub invoice_of : Uuid → World → Option Invoice
invoice_of i w = find_invoice i w.db.invoices

abbrev pub row_status : Option Invoice → Option InvoiceStatus
row_status none = none
row_status (some row) = some row.status

abbrev pub status_of : Uuid → World → Option InvoiceStatus
status_of i w = row_status (invoice_of i w)

-- Two worlds give every invoice the same status.
pub record SameStatuses (w w' : World) : Type 0 where
  pub same : (j : Uuid) → status_of j w' ≡ status_of j w

-- The same for every invoice but one.
pub record SameOthers (i : Uuid) (w w' : World) : Type 0 where
  pub others : (j : Uuid) → j ≢ i → status_of j w' ≡ status_of j w

-- The row of an invoice has a new status and its reason as the last error, and is new at submission or
-- completion just where the status is submitted or completed; else it is as it was.
abbrev pub Written : Uuid → InvoiceStatus → String → World → World → Type 0
Written i s reason w w' =
    (row : Invoice) × (now : Time) × (submitted_at : Option Time) × (completed_at : Option Time)
    × (invoice_of i w ≡ some row)
    × (invoice_of i w'
        ≡ some (record row {
          status = s;
          last_error = some reason;
          updated_at = now;
          submitted_at = or_else submitted_at row.submitted_at;
          completed_at = or_else completed_at row.completed_at;
        }))
    × (is_some submitted_at ≡ status_eq s submitted)
    × (is_some completed_at ≡ status_eq s completed)

update_none :
    (i : Uuid) (set : Invoice → Invoice) (rows : List Invoice)
    → count_id i rows ≡ 0
    → update_where_id i set rows ≡ rows
update_none i set [] h = refl
update_none i set (row ∷ rows) h = ground (arith, update_none i set rows)

module _ (env : Env) where
  -- A statement is executed whole or not at all.
  pub exec-db :
      (statement : Database → Database × ℕ) (w : World)
      → ((exec env statement w).1.db ≡ w.db) ⊎ ((exec env statement w).1.db ≡ (statement w.db).0)
  unfolding exec
  exec-db statement w = ground arith

  -- A read only takes time.
  pub get_by_id-world :
      (i : Uuid) (w : World) → (get_by_id env i w).1 ≡ record w { tick = w.tick + 1 }
  unfolding get_by_id
  get_by_id-world i w = ground arith

  pub get_by_id-ok :
      (i : Uuid) (w : World) (row : Invoice)
      → (get_by_id env i w).0 ≡ ok row
      → invoice_of i w ≡ some row
  unfolding get_by_id
  get_by_id-ok i w row h = ground arith

  pub get_items-db : (i : Uuid) (w : World) → (get_items_by_invoice_id env i w).1.db ≡ w.db
  unfolding get_items_by_invoice_id
  get_items-db i w = ground arith

  update-status :
      (invoice : Invoice) (j : Uuid) (w : World)
      → status_of j (update env invoice w).1 ≡ status_of j w
  unfolding update
  update-status invoice j w =
      ground (arith, find-update invoice.id j (set_columns invoice) w.db.invoices (λ row. refl))

  -- `Update` writes no status: whatever it answers, every invoice keeps its status.
  pub update-SameStatuses :
      (invoice : Invoice) (w : World) → SameStatuses w (update env invoice w).1
  update-SameStatuses invoice w = record { same = λ j. update-status invoice j w }

  pub time_if-db : (b : Bool) (w : World) → (time_if env b w).1.db ≡ w.db
  unfolding time_if
  time_if-db true w = refl
  time_if-db false w = refl

  time_if-some : (b : Bool) (w : World) → is_some (time_if env b w).0 ≡ b
  unfolding time_if
  time_if-some true w = refl
  time_if-some false w = refl

  time_if-queue : (b : Bool) (w : World) → (time_if env b w).1.queue ≡ w.queue
  unfolding time_if
  time_if-queue true w = refl
  time_if-queue false w = refl

  exec-queue : (f : Database → Database × ℕ) (w : World) → (exec env f w).1.queue ≡ w.queue
  unfolding exec
  exec-queue f w = ground arith

  pub update_status-queue :
      (i : Uuid) (s : InvoiceStatus) (reason : String) (w : World)
      → (update_status env i s reason w).1.queue ≡ w.queue
  unfolding update_status
  update_status-queue i s reason w =
      let w₁ = record w { tick = w.tick + 1 } in
      let (submitted_at, w₂) = time_if env (status_eq s submitted) w₁ in
      let (completed_at, w₃) = time_if env (status_eq s completed) w₂ in
      exec-queue
        (update_invoices i (set_status s reason (env.now w.tick) submitted_at completed_at)) w₃
      ∙ (time_if-queue (status_eq s completed) w₂ ∙ time_if-queue (status_eq s submitted) w₁)

  pub add_status_history-queue :
      (h : InvoiceStatusHistory) (w : World) → (add_status_history env h w).1.queue ≡ w.queue
  unfolding add_status_history
  add_status_history-queue h w = ground arith

  exec_update-ne :
      (i j : Uuid) (set : Invoice → Invoice) (w : World)
      → ((row : Invoice) → (set row).id ≡ row.id)
      → j ≢ i
      → invoice_of j (exec env (update_invoices i set) w).1 ≡ invoice_of j w
  unfolding exec update_invoices
  exec_update-ne i j set w keep h = ground (arith, find-update i j set w.db.invoices keep)

  -- An update of one row went through and changed it, or answered an error and changed nothing.
  pub exec_update-outcome :
      (i : Uuid) (set : Invoice → Invoice) (failure missing : String) (w : World)
      → ((row : Invoice) → (set row).id ≡ row.id)
      → let (tag, w') = exec env (update_invoices i set) w in
        ((row : Invoice) × (check_affected failure missing tag ≡ none)
          × (invoice_of i w ≡ some row)
          × (invoice_of i w' ≡ some (set row)))
        ⊎ ((is_some (check_affected failure missing tag) ≡ true) × (w'.db ≡ w.db))
  unfolding exec update_invoices
  exec_update-outcome i set failure missing w keep = elim (Option-cases (env.db_error w.tick)) [
    | inr (e, refused) ↦ inr (ground arith, ground arith)
    | inl accepted ↦ elim (Option-cases (find_invoice i w.db.invoices)) [
      | inl absent ↦ inr (
        ground (arith, count-find i w.db.invoices absent),
        ground (arith, update_none i set w.db.invoices (count-find i w.db.invoices absent)),
      )
      | inr (row, found) ↦ inl (
        row,
        ground (arith, find-count i w.db.invoices),
        found,
        ground (arith, find-update i i set w.db.invoices keep),
      )
    ]
  ]

  pub update_status-outcome :
      (i : Uuid) (s : InvoiceStatus) (reason : String) (w : World)
      → let (e, w') = update_status env i s reason w in
        ((e ≡ none) × Written i s reason w w') ⊎ ((is_some e ≡ true) × (w'.db ≡ w.db))
  unfolding update_status
  update_status-outcome i s reason w =
      let w₁ = record w { tick = w.tick + 1 } in
      let (submitted_at, w₂) = time_if env (status_eq s submitted) w₁ in
      let (completed_at, w₃) = time_if env (status_eq s completed) w₂ in
      let same = time_if-db (status_eq s completed) w₂ ∙ time_if-db (status_eq s submitted) w₁ in
      let now = env.now w.tick in
      elim (exec_update-outcome i (set_status s reason now submitted_at completed_at)
        "failed to update status" "invoice not found" w₃ (λ row. refl)) [
          | inl (row, done, before, after) ↦ inl (
            done,
            (
              row,
              now,
              submitted_at,
              completed_at,
              sym (ap (λ d. find_invoice i d.invoices) same) ∙ before,
              after,
              time_if-some (status_eq s submitted) w₁,
              time_if-some (status_eq s completed) w₂,
            ),
          )
          | inr (failed, kept) ↦ inr (failed, kept ∙ same)
        ]

  pub update_status-SameOthers :
      (i : Uuid) (s : InvoiceStatus) (reason : String) (w : World)
      → SameOthers i w (update_status env i s reason w).1
  unfolding update_status
  update_status-SameOthers i s reason w =
      let w₁ = record w { tick = w.tick + 1 } in
      let (submitted_at, w₂) = time_if env (status_eq s submitted) w₁ in
      let (completed_at, w₃) = time_if env (status_eq s completed) w₂ in
      record {
        others = λ j h. ap row_status (
            exec_update-ne i j (set_status s reason (env.now w.tick) submitted_at completed_at) w₃
              (λ row. refl) h
            ∙ ap (λ d. find_invoice j d.invoices)
                (time_if-db (status_eq s completed) w₂ ∙ time_if-db (status_eq s submitted) w₁));
      }

  pub add_status_history-SameStatuses :
      (h : InvoiceStatusHistory) (w : World) → SameStatuses w (add_status_history env h w).1
  unfolding add_status_history
  add_status_history-SameStatuses h w = record { same = λ j. ground arith }

-- Statuses end so: of one invoice in P, of the others as they were.
pub record Ends (i : Uuid) (P : Option InvoiceStatus → Type 0) (w w' : World) : Type 0 where
  pub others : (j : Uuid) → j ≢ i → status_of j w' ≡ status_of j w
  pub status : P (status_of i w')

module _ {i : Uuid} {P : Option InvoiceStatus → Type 0} {w w' : World}
    (before : Ends i P w w') where
  pub Ends-quiet : {w'' : World} → SameStatuses w' w'' → Ends i P w w''
  Ends-quiet q = record {
    others = λ j h. q.same j ∙ before.others j h;
    status = subst P (sym (q.same i)) before.status;
  }

  pub Ends-tick : (n : ℕ) → Ends i P w (record w' { tick = n })
  Ends-tick n = record { others = before.others; status = before.status }

  pub Ends-update :
      (env : Env) (s : InvoiceStatus) (reason : String)
      → P (some s)
      → Ends i P w (update_status env i s reason w').1
  Ends-update env s reason p = record {
    others = λ j h. (update_status-SameOthers env i s reason w').others j h ∙ before.others j h;
    status = elim (update_status-outcome env i s reason w') [
      | inl (_, (row, now, sent, ended, _, after, _, _)) ↦ subst P (sym (ap row_status after)) p
      | inr (_, kept) ↦
          subst P (sym (ap (λ d. row_status (find_invoice i d.invoices)) kept)) before.status
    ];
  }

pub same_invoices_statuses : {w w' : World} → w'.db.invoices ≡ w.db.invoices → SameStatuses w w'
same_invoices_statuses e = record { same = λ j. ap (λ rows. row_status (find_invoice j rows)) e }
