-- ===== src/Service/Listing.antt =====
-- `ListInvoices` bounds the page (internal/service/invoice_service.go).
use tax_module.Prelude.{
  if◌then◌else◌, leb, ◌==◌, zero, suc, ℕ, ◌+◌, ◌≤◌, take, drop, length, length-take_le, Option,
  none, some, List, [], ◌∷◌, true, Bool-cases, inl, inr, ◌↔◌, Filters, nothing, kept, left_out, ◌≡◌,
  refl, arith,
}
use tax_module.Prelude.Int.{ℤ, pos, negsuc}
use tax_module.Domain.Status.{InvoiceStatus}
use tax_module.Domain.Status.Equality.{status_eq_iff}
use tax_module.Domain.Invoice.{Invoice, Time}
use tax_module.Store.{World, Env, ok}
use tax_module.Repository.Reliable.{IsReliable}
use tax_module.Repository.Listing.{
  InvoiceFilter, where_matches, page, list, matches, matches_status, matches_from, matches_to,
}
use tax_module.Service.{clamp_limit, list_invoices}

-- The limit that is used for the one that is asked for.
abbrev pub effective_limit : ℤ → ℕ
effective_limit (pos n) = if n == 0 then 20 else (if leb n 100 then n else 100)
effective_limit (negsuc n) = 20

clamp-effective : (n : ℤ) → clamp_limit n ≡ pos (effective_limit n)
clamp-effective (pos zero) = refl
clamp-effective (pos (suc n)) = ground arith
clamp-effective (negsuc n) = refl

effective_limit_bounds : (n : ℤ) → (1 ≤ effective_limit n) × (effective_limit n ≤ 100)
effective_limit_bounds (pos n) = ground arith
effective_limit_bounds (negsuc n) = omega arith

abbrev pub StatusMatches : Option InvoiceStatus → Invoice → Type 0
StatusMatches none row = Unit
StatusMatches (some s) row = row.status ≡ s

abbrev pub FromMatches : Option Time → Invoice → Type 0
FromMatches none row = Unit
FromMatches (some t) row = t ≤ row.created_at

abbrev pub ToMatches : Option Time → Invoice → Type 0
ToMatches none row = Unit
ToMatches (some t) row = row.created_at ≤ t

-- An invoice has the status that is asked for and was created between the times that are.
abbrev pub Matches : InvoiceFilter → Invoice → Type 0
Matches f row = StatusMatches f.status row × FromMatches f.from_date row × ToMatches f.to_date row

matches_status_iff :
    (s : Option InvoiceStatus) (row : Invoice) → (matches_status s row ≡ true) ↔ StatusMatches s row
matches_status_iff none row = ((λ h. tt), λ h. refl)
matches_status_iff (some s) row = status_eq_iff row.status s

matches_from_iff :
    (t : Option Time) (row : Invoice) → (matches_from t row ≡ true) ↔ FromMatches t row
matches_from_iff none row = ((λ h. tt), λ h. refl)
matches_from_iff (some t) row = ((λ h. ground (arith, h)), λ h. ground (arith, h))

matches_to_iff : (t : Option Time) (row : Invoice) → (matches_to t row ≡ true) ↔ ToMatches t row
matches_to_iff none row = ((λ h. tt), λ h. refl)
matches_to_iff (some t) row = ((λ h. ground (arith, h)), λ h. ground (arith, h))

matches_iff : (f : InvoiceFilter) (row : Invoice) → (matches f row ≡ true) ↔ Matches f row
matches_iff f row = (
  (λ h. (
    (matches_status_iff f.status row).0 (ground (arith, h)),
    (matches_from_iff f.from_date row).0 (ground (arith, h)),
    (matches_to_iff f.to_date row).0 (ground (arith, h)),
  )),
  λ (s, from, to).
      rw
        (
          (matches_status_iff f.status row).1 s,
          (matches_from_iff f.from_date row).1 from,
          (matches_to_iff f.to_date row).1 to,
        )
        refl,
)

where_matches-Filters :
    (f : InvoiceFilter) (rows : List Invoice) → Filters (Matches f) rows (where_matches f rows)
where_matches-Filters f [] = nothing
where_matches-Filters f (row ∷ rows) = elim (Bool-cases (matches f row)) [
  | inl matching ↦
      rw matching (kept ((matches_iff f row).0 matching) (where_matches-Filters f rows))
  | inr unmatched ↦ rw unmatched (
      left_out (λ m. absurd (ground (arith, unmatched, (matches_iff f row).1 m)))
        (where_matches-Filters f rows))
]

-- While the database works and the offset is not negative, `ListInvoices` answers with the number of
-- all invoices that have the status of the filter, where it names one, and were created within its
-- times, where it names them; and with a page of those, in the server's order, which has at most the
-- effective limit of rows: what was asked for within 1 to 100, 20 for none or a negative one, and
-- 100 for more. The tables are as they were.
pub list_invoices_lem :
    (env : Env) (reliable : IsReliable env) (f : InvoiceFilter) (m : ℕ) (w : World)
    → f.offset ≡ pos m
    → (found : List Invoice) × Filters (Matches f) w.db.invoices found
      × (let rows = take (effective_limit f.limit) (drop m (env.order_by_created_at_desc found)) in
          (list_invoices env f w ≡ (ok (rows, length found), record w { tick = w.tick + 1 + 1 }))
          × (length rows ≤ effective_limit f.limit)
          × (1 ≤ effective_limit f.limit)
          × (effective_limit f.limit ≤ 100))
unfolding list_invoices list page
list_invoices_lem env reliable f m w at = (
  where_matches f w.db.invoices,
  where_matches-Filters f w.db.invoices,
  (
    ground (
      arith,
      clamp-effective f.limit,
      reliable.no_error w.tick,
      reliable.no_error (w.tick + 1),
      reliable.no_break (w.tick + 1),
    ),
    length-take_le (effective_limit f.limit)
        (drop m (env.order_by_created_at_desc (where_matches f w.db.invoices))),
    (effective_limit_bounds f.limit).0,
    (effective_limit_bounds f.limit).1,
  ),
)
