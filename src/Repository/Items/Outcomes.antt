-- ===== src/Repository/Items/Outcomes.antt =====
-- What `UpdateItem` and `DeleteItem` leave of every item
-- (internal/repository/postgres/invoice_repo.go).
use tax_module.Prelude.{
  ◌==◌, Option, none, some, List, [], ◌∷◌, ◌≡◌, ◌⊎◌, refl, inl, inr, is_some, true, false, arith,
  if◌then◌else◌, Option-cases,
}
use mathlib.Core.Option
use tax_module.Domain.Invoice.{InvoiceItem, Uuid}
use tax_module.Domain.Errors.{Error}
use tax_module.Store.{World, Env, exec}
use tax_module.Repository.Items.{
  find_item, count_item, update_item_where, delete_item_where, set_item, update_item_row,
  delete_item_row, update_item, delete_item,
}

abbrev pub item_of : Uuid → World → Option InvoiceItem
item_of i w = find_item i w.db.invoice_items

find-update_item :
    (i j : Uuid) (set : InvoiceItem → InvoiceItem) (items : List InvoiceItem)
    → ((item : InvoiceItem) → (set item).id ≡ item.id)
    → find_item j (update_item_where i set items)
      ≡ (if i == j then Option.map set (find_item j items) else find_item j items)
find-update_item i j set [] keep = ground arith
find-update_item i j set (item ∷ items) keep =
    ground (arith, keep item, find-update_item i j set items keep)

find-delete_item :
    (i j : Uuid) (items : List InvoiceItem)
    → find_item j (delete_item_where i items) ≡ (if i == j then none else find_item j items)
find-delete_item i j [] = ground arith
find-delete_item i j (item ∷ items) = ground (arith, find-delete_item i j items)

count-find_item :
    (i : Uuid) (items : List InvoiceItem) → find_item i items ≡ none → count_item i items ≡ 0
count-find_item i [] h = refl
count-find_item i (item ∷ items) h = ground (arith, count-find_item i items)

find-count_item :
    (i : Uuid) (items : List InvoiceItem) → count_item i items ≡ 0 → find_item i items ≡ none
find-count_item i [] h = refl
find-count_item i (item ∷ items) h = ground (arith, find-count_item i items)

-- The items after an operation on the item i: it was there and is f of it now, and the others are as
-- they were.
pub record ItemBecomes (i : Uuid) (f : InvoiceItem → Option InvoiceItem) (w w' : World)
    : Type 0 where
  pub item : InvoiceItem
  pub before : item_of i w ≡ some item
  pub after : item_of i w' ≡ f item
  pub others : (j : Uuid) → (i == j) ≡ false → item_of j w' ≡ item_of j w
  pub same_invoices : w'.db.invoices ≡ w.db.invoices

-- Done with a nil answer, or an error and every item as it was.
abbrev pub ItemOutcome :
    Uuid → (InvoiceItem → Option InvoiceItem) → Option Error → World → World → Type 0
ItemOutcome i f e w w' =
    ((e ≡ none) × ItemBecomes i f w w')
    ⊎ ((is_some e ≡ true) × ((j : Uuid) → item_of j w' ≡ item_of j w))

module _ (env : Env) (w : World) where
  -- Whatever the database answers: `UpdateItem` answers nil and writes the columns that it sets into
  -- the item, and no other item changes; or it answers an error and no item changes.
  pub update_item-outcome :
      (item : InvoiceItem)
      → let (e, w') = update_item env item w in
        ItemOutcome item.id (λ row. some (set_item item row)) e w w'
  unfolding update_item exec update_item_row
  update_item-outcome item = elim (Option-cases (env.db_error w.tick)) [
    | inr (e, refused) ↦ inr (ground (arith, refused), λ j. ground (arith, refused))
    | inl accepted ↦ elim (Option-cases (find_item item.id w.db.invoice_items)) [
      | inl absent ↦ inr (
        ground (arith, count-find_item item.id w.db.invoice_items absent),
        λ j.
            ground
              (arith, find-update_item item.id j (set_item item) w.db.invoice_items (λ row. refl)),
      )
      | inr (row, found) ↦ inl (
        ground (arith, find-count_item item.id w.db.invoice_items),
        record {
          item = row;
          before = found;
          after = ground (
            arith,
            find-update_item item.id item.id (set_item item) w.db.invoice_items (λ r. refl),
          );
          others = λ j h.
              ground
                (arith, find-update_item item.id j (set_item item) w.db.invoice_items (λ r. refl));
          same_invoices = ground arith;
        },
      )
    ]
  ]

  -- Whatever the database answers: `DeleteItem` answers nil, and the item was there, is gone and no
  -- other item changes; or it answers an error and no item changes.
  pub delete_item-outcome :
      (i : Uuid) → let (e, w') = delete_item env i w in ItemOutcome i (λ row. none) e w w'
  unfolding delete_item exec delete_item_row
  delete_item-outcome i = elim (Option-cases (env.db_error w.tick)) [
    | inr (e, refused) ↦ inr (ground (arith, refused), λ j. ground (arith, refused))
    | inl accepted ↦ elim (Option-cases (find_item i w.db.invoice_items)) [
      | inl absent ↦ inr (
        ground (arith, count-find_item i w.db.invoice_items absent),
        λ j. ground (arith, find-delete_item i j w.db.invoice_items),
      )
      | inr (row, found) ↦ inl (
        ground (arith, find-count_item i w.db.invoice_items),
        record {
          item = row;
          before = found;
          after = ground (arith, find-delete_item i i w.db.invoice_items);
          others = λ j h. ground (arith, find-delete_item i j w.db.invoice_items);
          same_invoices = ground arith;
        },
      )
    ]
  ]
