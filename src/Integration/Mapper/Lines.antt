-- ===== src/Integration/Mapper/Lines.antt =====
-- The lines of the request are numbered 1, 2, 3, … (`mapItems`, internal/integration/mapper.go).
use tax_module.Prelude.{ℕ, zero, suc, ◌+◌, List, [], ◌∷◌, map, Option, some, length, ◌≡◌, refl, ap}
use tax_module.Prelude.Int.{ℤ, pos}
use tax_module.Domain.Invoice.{InvoiceItem}
use tax_module.Integration.Dto.Requests.{ItemInfo}
use tax_module.Integration.Mapper.{Floats, selection_or, map_items}

-- The numbers k, k + 1, … of that many lines, whatever line numbers the items themselves have.
abbrev pub numbered : ℕ → ℕ → List (Option ℤ)
numbered k zero = []
numbered k (suc n) = some (pos k) ∷ numbered (k + 1) n

-- The request has a line for each item, in their order; the lines are numbered consecutively, and
-- each has the item's selection, or 1 (goods) where the item has none.
pub map_items_lem :
    (floats : Floats) (k : ℕ) (items : List InvoiceItem)
    → (map (λ (line : ItemInfo). line.line_number) (map_items floats k items)
        ≡ numbered k (length items))
      × (map (λ (line : ItemInfo). line.item_name) (map_items floats k items)
          ≡ map (λ (item : InvoiceItem). item.item_name) items)
      × (map (λ (line : ItemInfo). line.selection) (map_items floats k items)
          ≡ map (λ (item : InvoiceItem). some (selection_or item.selection)) items)
unfolding map_items
map_items_lem floats k [] = (refl, refl, refl)
map_items_lem floats k (item ∷ items) =
    let (lines, names, selections) = map_items_lem floats (k + 1) items in
    (
      ap (λ r. some (pos k) ∷ r) lines,
      ap (λ r. item.item_name ∷ r) names,
      ap (λ r. some (selection_or item.selection) ∷ r) selections,
    )
