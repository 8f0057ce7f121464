-- ===== src/Examples/Repository.antt =====
-- Single statements and a transaction (internal/repository/postgres/invoice_repo.go).
use tax_module.Prelude.{some, none, [], ◌∷◌, ◌≡◌, ◌⊎◌, true, is_some}
use tax_module.Domain.Status.{draft}
use tax_module.Domain.Invoice.{Invoice}
use tax_module.Repository.Atomic.{stored, create_with_items-atomic}
use tax_module.Repository.Invoices.{create_with_items}
use tax_module.Repository.Items.{set_item, update_item, delete_item}
use tax_module.Repository.Items.Outcomes.{ItemOutcome, update_item-outcome, delete_item-outcome}
use tax_module.Examples.{quiet_env, order, coffee, shop}

abbrev second_order : Invoice
second_order = record (order draft) { id = 2; items = coffee ∷ [] }

create_with_items-atomic_example :
    let (e, w') = create_with_items quiet_env second_order (shop draft) in
    ((e ≡ none) × (w'.db ≡ stored quiet_env second_order (shop draft).db))
    ⊎ ((is_some e ≡ true) × (w'.db ≡ (shop draft).db))
create_with_items-atomic_example = create_with_items-atomic quiet_env second_order (shop draft)

coffee_updated :
    let (e, w') = update_item quiet_env coffee (shop draft) in
    ItemOutcome 11 (λ row. some (set_item coffee row)) e (shop draft) w'
coffee_updated = update_item-outcome quiet_env (shop draft) coffee

coffee_deleted :
    let (e, w') = delete_item quiet_env 11 (shop draft) in
    ItemOutcome 11 (λ row. none) e (shop draft) w'
coffee_deleted = delete_item-outcome quiet_env (shop draft) 11
