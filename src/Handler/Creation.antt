-- ===== src/Handler/Creation.antt =====
-- The creation of an invoice over HTTP (`CreateInvoice` and `GetInvoice`,
-- internal/handler/invoice_handler.go).
use tax_module.Prelude.{
  ◌+◌, Option, none, some, true, false, is_some, ◌≡◌, refl, ap, ◌∙◌, ◌⊎◌, inl, inr,
}
use tax_module.Domain.Status.{draft}
use tax_module.Domain.Errors.{ErrorCode, Error, as_app}
use tax_module.Domain.Invoice.{Invoice, Float64}
use tax_module.Store.{Result, ok, err, World, Env, time_now, uuid_new}
use tax_module.Repository.Atomic.{stored, create_with_items-atomic}
use tax_module.Service.{assign_items, create_invoice}
use tax_module.Service.Creation.{assign_items-db}
use tax_module.Handler.Answers.{
  Response, one_invoice, json, success_response, app_response, handle_error,
}
use tax_module.Handler.Requests.{Binding, CreateInvoiceRequest}
use tax_module.Handler.Mapping.{invoice_of_request, exchange_rate}
use tax_module.Handler.{created, create, create_bound, create_rated, String, ℕ}

abbrev pub ok_invoice : Invoice → Response
ok_invoice invoice = json 200 (success_response (one_invoice invoice))

handle_error-success : (e : Error) → (handle_error e).body.success ≡ false
unfolding handle_error
handle_error-success e = of_app (as_app e)
  where
    of_app : (a : Option (ErrorCode × String × ℕ)) → (app_response a).body.success ≡ false
    of_app none = refl
    of_app (some _) = refl

created-failed :
    (final : Invoice) (e : Option Error)
    → is_some e ≡ true
    → (created (final, e)).body.success ≡ false
created-failed final none h = cc
created-failed final (some e) h = handle_error-success e

-- The answer to a creation and what it did to the tables.
abbrev pub CreateOutcome : Env → Response → World → World → Type 0
CreateOutcome env resp w w' =
    ((final : Invoice) × (resp ≡ json 201 (success_response (one_invoice final)))
      × (final.status ≡ draft)
      × (w'.db ≡ stored env final w.db))
    ⊎ ((resp.body.success ≡ false) × (w'.db ≡ w.db))

module _ (env : Env) (b : Binding) where
  created-outcome :
      (invoice : Invoice) (w : World)
      → let (result, w') = create_invoice env invoice w in CreateOutcome env (created result) w w'
  unfolding create_invoice time_now uuid_new
  created-outcome invoice w =
      let w₁ : World = record w { tick = w.tick + 1 + 1 + 1 } in
      let i = env.new_uuid (w.tick + 1) in
      let now = env.now w.tick in
      let w₂ = (assign_items env i now invoice.items w₁).1 in
      let final = (create_invoice env invoice w).0.0 in
      let same = assign_items-db env i now invoice.items w₁ in
      elim (create_with_items-atomic env final w₂) [
        | inl (fine, kept) ↦
            inl (final, ap (λ e. created (final, e)) fine, refl, kept ∙ ap (stored env final) same)
        | inr (bad, kept) ↦ inr (created-failed final _ bad, kept ∙ same)
      ]

  rated-outcome :
      (req : CreateInvoiceRequest) (rate : Option Float64) (w : World)
      → let (resp, w') = create_rated env b req rate w in CreateOutcome env resp w w'
  unfolding create_rated
  rated-outcome req none w = inr (refl, refl)
  rated-outcome req (some rate) w = created-outcome (invoice_of_request b req rate) w

  -- Whatever the request and the database answer: the creation of an invoice is answered by 201 with
  -- the invoice, a draft, and this one is stored with all of its items; or the answer is no success
  -- and all tables are as they were.
  pub create-outcome :
      (body : Result CreateInvoiceRequest) (w : World)
      → let (resp, w') = create env b body w in CreateOutcome env resp w w'
  unfolding create create_bound
  create-outcome (err e) w = inr (refl, refl)
  create-outcome (ok req) w = rated-outcome req (exchange_rate b req) w
