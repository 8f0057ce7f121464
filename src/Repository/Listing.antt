-- ===== src/Repository/Listing.antt =====
-- `InvoiceRepo.List`: the conditions, the count and one page (internal/repository/postgres/invoice_repo.go).
use tax_module.Prelude.{
  ℕ, ◌+◌, String, Bool, ◌&&◌, Option, none, some, List, [], ◌∷◌, take, drop, length, leb,
  if◌then◌else◌, true,
}
use tax_module.Prelude.Int.{ℤ, pos, negsuc}
use tax_module.Domain.Status.{InvoiceStatus, status_eq}
use tax_module.Domain.Invoice.{Invoice, Time}
use tax_module.Domain.Errors.{plain, new_internal_error}
use tax_module.Store.{Result, ok, err, Env, M, pure, ◌>>=◌, query, query_row}

pub record InvoiceFilter : Type 0 where
  pub status : Option InvoiceStatus
  pub from_date : Option Time
  pub to_date : Option Time
  pub limit : ℤ
  pub offset : ℤ

-- A condition that is left out where the filter has no value for it.
abbrev pub matches_status : Option InvoiceStatus → Invoice → Bool
matches_status none row = true
matches_status (some s) row = status_eq row.status s

abbrev pub matches_from : Option Time → Invoice → Bool
matches_from none row = true
matches_from (some t) row = leb t row.created_at

abbrev pub matches_to : Option Time → Invoice → Bool
matches_to none row = true
matches_to (some t) row = leb row.created_at t

abbrev pub matches : InvoiceFilter → Invoice → Bool
matches f row =
    matches_status f.status row && (matches_from f.from_date row && matches_to f.to_date row)

abbrev pub where_matches : InvoiceFilter → List Invoice → List Invoice
where_matches f [] = []
where_matches f (row ∷ rows) =
    if matches f row then row ∷ where_matches f rows else where_matches f rows

-- The server refuses a negative LIMIT or OFFSET.
abbrev pub refused : {A : Type 0} → String → M (Result A)
refused message w = (err (plain message), record w { tick = w.tick + 1 })

module _ (env : Env) where
  unfoldable pub page : InvoiceFilter → M (Result (List Invoice))
  unfolding query
  page f = elim f.limit [
    | negsuc _ ↦ refused "LIMIT must not be negative"
    | pos n ↦ elim f.offset [
      | negsuc _ ↦ refused "OFFSET must not be negative"
      | pos m ↦
          query env
            (λ db. take n (drop m (env.order_by_created_at_desc (where_matches f db.invoices))))
    ]
  ]

  abbrev pub check_page : ℕ → Result (List Invoice) → Result (List Invoice × ℕ)
  check_page total (err e) = err (new_internal_error "failed to list invoices" e)
  check_page total (ok rows) = ok (rows, total)

  unfoldable pub count_page : InvoiceFilter → Result (Option ℕ) → M (Result (List Invoice × ℕ))
  count_page f (err e) = pure (err (new_internal_error "failed to count invoices" e))
  count_page f (ok none) =
      pure (err (new_internal_error "failed to count invoices" (plain "no rows")))
  count_page f (ok (some total)) = do rows ← page f; pure (check_page total rows)

  unfoldable pub list : InvoiceFilter → M (Result (List Invoice × ℕ))
  unfolding query_row count_page page
  list f = do
    total ← query_row env (λ db. some (length (where_matches f db.invoices)))
    count_page f total
