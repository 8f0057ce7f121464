-- ===== src/Examples/Delivery.antt =====
-- An invoice from its creation to its publication, with a Viettel that answers at once.
use tax_module.Prelude.{String, none, some, ◌≡◌, refl, arith, inr, true, false, String}
use text.Mathlib.Text.{◌==◌ as str_eq}
use tax_module.Domain.Status.{draft, submitted, processing, completed, failed, can_transition_to}
use tax_module.Domain.Publisher.{InvoicePublisher, PublisherLaws}
use tax_module.Domain.Token.{AccessToken}
use tax_module.Store.{ok}
use tax_module.Repository.Status.{status_of}
use tax_module.Repository.Reliable.{RowIs}
use tax_module.Repository.Tokens.{find_token, set_token_row}
use tax_module.Repository.Upsert.{Holds, set_token_row-Holds}
use tax_module.Worker.Publish.{handle_publish}
use tax_module.Worker.Publish.Answers.{Answers, handle_publish-answered}
use tax_module.Worker.Queue.{worker_turn}
use tax_module.Service.{create_invoice, submit_invoice}
use tax_module.Service.Submit.{adapter}
use tax_module.Service.Delivery.{submit_invoice-delivers}
use tax_module.System.{submission}
use tax_module.System.{step}
use tax_module.System.Lifecycle.{Moved, step-Moved}
use tax_module.Examples.{
  quiet_env, quiet_env-IsReliable, shop, shop-RowIs, pool_config, busy_publisher,
  busy_publisher-laws,
}

abbrev ready_publisher : InvoicePublisher
ready_publisher = record busy_publisher {
  create_invoice = λ invoice w. ((invoice, ok "K24TAA7"), w);
}

ready_publisher-laws : PublisherLaws ready_publisher
ready_publisher-laws = record {
  create_tables = λ invoice w. busy_publisher-laws.create_tables invoice w;
  create_uuid = λ invoice w. (invoice.transaction_uuid, refl);
  query_tables = λ uuid w. busy_publisher-laws.query_tables uuid w;
  report_tables = λ uuid from to w. busy_publisher-laws.report_tables uuid from to w;
  download_tables = λ number kind w. busy_publisher-laws.download_tables number kind w;
}

ready_publisher-Answers : Answers ready_publisher "K24TAA7"
ready_publisher-Answers = record { answers = λ invoice w. refl }

handle_publish-answered_example :
    RowIs 1
      (handle_publish quiet_env pool_config ready_publisher 1 (shop processing)).1
      completed
      0
      (some "K24TAA7")
handle_publish-answered_example =
    handle_publish-answered quiet_env quiet_env-IsReliable pool_config ready_publisher
      ready_publisher-laws "K24TAA7" ready_publisher-Answers 1 (shop-RowIs processing)
      (inr (refl, refl))

failed_open : can_transition_to failed submitted ≡ true
unfolding can_transition_to
failed_open = refl

submit_invoice-delivers_example :
    let (failure, w') = submit_invoice quiet_env (adapter pool_config) 1 (shop failed) in
    (failure ≡ none)
    × RowIs 1 (worker_turn pool_config quiet_env ready_publisher w').1 completed 0 (some "K24TAA7")
submit_invoice-delivers_example =
    submit_invoice-delivers quiet_env pool_config 1 quiet_env-IsReliable ready_publisher
      ready_publisher-laws "K24TAA7" ready_publisher-Answers (shop-RowIs failed) failed_open refl
      (omega arith)

abbrev fresh_token : AccessToken
fresh_token = record {
  id = 0;
  provider = "viettel_sinvoice";
  access_token = "t1";
  token_type = "bearer";
  expires_at = 9000;
  refresh_token = "";
  scope = "";
  raw_response = "{}";
  created_at = 0;
  updated_at = 0;
}

set_token_row-Holds_example :
    let (failure, w') = set_token_row quiet_env fresh_token (shop draft) in
    (failure ≡ none)
    × Holds "viettel_sinvoice" fresh_token w'.db.access_tokens
    × ((q : String)
        → str_eq "viettel_sinvoice" q ≡ false
        → find_token q w'.db.access_tokens ≡ find_token q (shop draft).db.access_tokens)
set_token_row-Holds_example =
    set_token_row-Holds quiet_env quiet_env-IsReliable fresh_token (shop draft)

step-Moved_example :
    Moved
      (status_of 1 (shop failed))
      (status_of 1 (step quiet_env pool_config busy_publisher (submission 1) (shop failed)))
step-Moved_example =
    step-Moved quiet_env busy_publisher busy_publisher-laws pool_config (submission 1) 1
      (shop failed)
