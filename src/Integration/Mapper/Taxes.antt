-- ===== src/Integration/Mapper/Taxes.antt =====
-- What the groups of `buildTaxBreakdowns` sum up (internal/integration/mapper.go).
use tax_module.Prelude.{
  true, Option, none, some, List, [], ◌∷◌, ◌≡◌, refl, if◌then◌else◌, arith, ◌∙◌, ap,
}
use tax_module.Domain.Invoice.{InvoiceItem, Float64}
use tax_module.Integration.Mapper.{Floats, Group, add_item, accumulate, tax_groups}

-- Go's `==` on floats is symmetric and transitive; it is not reflexive (NaN).
pub record EqLaws (floats : Floats) : Type 0 where
  pub eq_symm : (a b : Float64) → floats.eq a b ≡ true → floats.eq b a ≡ true
  pub eq_trans :
      (a b c : Float64) → floats.eq a b ≡ true → floats.eq b c ≡ true → floats.eq a c ≡ true

module _ (floats : Floats) where
  -- The group of a percentage, if there is one.
  abbrev pub group_of : Float64 → List Group → Option Group
  group_of k [] = none
  group_of k (g ∷ groups) = if floats.eq g.0 k then some g else group_of k groups

  -- One percentage by itself: the items of that percentage, one after the other.
  abbrev pub collect_item : Float64 → InvoiceItem → Option Group → Option Group
  collect_item k item found =
      if floats.eq item.tax_percentage k
      then (elim found [
        | none ↦
            some (add_item floats item (item.tax_percentage, floats.zero_value, floats.zero_value))
        | some g ↦ some (add_item floats item g)
      ])
      else found

  abbrev pub collect : Float64 → Option Group → List InvoiceItem → Option Group
  collect k found [] = found
  collect k found (item ∷ items) = collect k (collect_item k item found) items

  module _ (laws : EqLaws floats) where
    group_of-accumulate :
        (k : Float64) (item : InvoiceItem) (groups : List Group)
        → group_of k (accumulate floats item groups) ≡ collect_item k item (group_of k groups)
    unfolding accumulate
    group_of-accumulate k item [] = ground arith
    group_of-accumulate k item (g ∷ groups) = ground (
      arith,
      group_of-accumulate k item groups,
      laws.eq_symm g.0 item.tax_percentage,
      laws.eq_trans item.tax_percentage g.0 k,
      laws.eq_trans g.0 item.tax_percentage k,
      laws.eq_symm item.tax_percentage k,
      laws.eq_trans g.0 k item.tax_percentage,
    )

    group_of-tax_groups :
        (k : Float64) (groups : List Group) (items : List InvoiceItem)
        → group_of k (tax_groups floats groups items) ≡ collect k (group_of k groups) items
    unfolding tax_groups
    group_of-tax_groups k groups [] = refl
    group_of-tax_groups k groups (item ∷ items) =
        group_of-tax_groups k (accumulate floats item groups) items
        ∙ ap (λ found. collect k found items) (group_of-accumulate k item groups)

    -- Where the equality of floats is symmetric and transitive: the group that the map has for a
    -- percentage is what one gets by going through the items for that percentage alone: no group
    -- where no item has it, and otherwise the amounts of just the items that have it, added to
    -- zero in their order.
    pub tax_groups_lem :
        (k : Float64) (items : List InvoiceItem)
        → group_of k (tax_groups floats [] items) ≡ collect k none items
    tax_groups_lem k items = group_of-tax_groups k [] items
