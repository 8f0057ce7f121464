-- ===== src/Integration/Publisher/Laws.antt =====
-- The publisher keeps the contract of its port (internal/integration/viettel_publisher.go).
use tax_module.Prelude.{String, Option, none, some, ◌≡◌, refl, arith}
use tax_module.Config.{ThirdPartyConfig, SellerConfig}
use tax_module.Domain.Publisher.{PublisherLaws}
use tax_module.Store.{Env, World, time_now, uuid_new}
use tax_module.Integration.Wire.{Wire}
use tax_module.Integration.Mapper.{Floats, map_invoice_to_viettel, request_uuid}
use tax_module.Integration.Auth.Frames.{Leaves, SameTables-refl, SameTables-trans}
use tax_module.Integration.Client.Frames.{
  create-Leaves, search-Leaves, report_call-Leaves, file-Leaves,
}
use tax_module.Integration.Publisher.{
  send_validated, publisher_create, publisher_query, publisher_report, publisher_download,
  viettel_publisher, Invoice, validate_viettel_request, ViettelInvoiceRequest, Error,
}

module _ (env : Env) (wire : Wire) (floats : Floats) (cfg : ThirdPartyConfig)
    (seller : SellerConfig) where
  uuid-Leaves : (u : Option String) → Leaves (request_uuid floats env u)
  unfolding request_uuid uuid_new
  uuid-Leaves u w = ground arith

  map-Leaves : (invoice : Invoice) → Leaves (map_invoice_to_viettel floats env cfg seller invoice)
  unfolding map_invoice_to_viettel time_now
  map-Leaves invoice w =
      let u = uuid-Leaves invoice.transaction_uuid w in
      record {
        same_invoices = u.same_invoices;
        same_items = u.same_items;
        same_history = u.same_history;
        same_queue = u.same_queue;
      }

  validated-Leaves :
      (invoice : Invoice) (r : ViettelInvoiceRequest) (e : Option Error)
      → Leaves (send_validated env wire floats cfg seller invoice r e)
  unfolding send_validated
  validated-Leaves invoice r (some e) w = SameTables-refl w
  validated-Leaves invoice r none w = create-Leaves env wire cfg r w

  validated_uuid :
      (invoice : Invoice) (r : ViettelInvoiceRequest) (e : Option Error) (w : World)
      → (u : Option String) × ((send_validated env wire floats cfg seller invoice r e w).0.0
          ≡ record invoice { transaction_uuid = u })
  unfolding send_validated
  validated_uuid invoice r (some e) w = (invoice.transaction_uuid, refl)
  validated_uuid invoice r none w = (some r.general_invoice_info.transaction_uuid, refl)

  publish-Leaves :
      (invoice : Invoice) → Leaves (publisher_create env wire floats cfg seller invoice)
  unfolding publisher_create
  publish-Leaves invoice w =
      let (r, w₁) = map_invoice_to_viettel floats env cfg seller invoice w in
      SameTables-trans (map-Leaves invoice w)
        (validated-Leaves invoice r (validate_viettel_request wire r) w₁)

  publish_uuid :
      (invoice : Invoice) (w : World)
      → (u : Option String) × ((publisher_create env wire floats cfg seller invoice w).0.0
          ≡ record invoice { transaction_uuid = u })
  unfolding publisher_create
  publish_uuid invoice w =
      let (r, w₁) = map_invoice_to_viettel floats env cfg seller invoice w in
      validated_uuid invoice r (validate_viettel_request wire r) w₁

  query-Leaves : (uuid : String) → Leaves (publisher_query env wire floats cfg seller uuid)
  unfolding publisher_query
  query-Leaves uuid w = search-Leaves env wire cfg uuid cfg.supplier_code w

  report-Leaves : (u s e : String) → Leaves (publisher_report env wire floats cfg seller u s e)
  unfolding publisher_report
  report-Leaves u s e w = report_call-Leaves env wire cfg _ w

  download-Leaves : (n t : String) → Leaves (publisher_download env wire floats cfg seller n t)
  unfolding publisher_download
  download-Leaves n t w = file-Leaves env wire cfg _ w

  -- Whatever Viettel, the clock and the database answer, the publisher writes no invoice, no item, no
  -- history and no job in any of its four calls, and of the invoice that it is handed it changes the transaction uuid at most.
  pub viettel_publisher-laws : PublisherLaws (viettel_publisher env wire floats cfg seller)
  viettel_publisher-laws = record {
    create_tables = publish-Leaves;
    create_uuid = publish_uuid;
    query_tables = query-Leaves;
    report_tables = report-Leaves;
    download_tables = download-Leaves;
  }
