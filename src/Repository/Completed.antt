-- ===== src/Repository/Completed.antt =====
-- Steps after which a completed invoice is completed still (internal/domain/invoice.go).
use tax_module.Prelude.{◌==◌, some, ◌≡◌, ◌≢◌, sym, subst, ◌∙◌, Bool-cases, inl, inr, Option, arith}
use tax_module.Domain.Status.{InvoiceStatus, completed}
use tax_module.Domain.Invoice.{Uuid}
use tax_module.Store.{World}
use tax_module.Repository.Status.{status_of, SameStatuses, Ends}

pub record KeepsCompleted (w w' : World) : Type 0 where
  pub keeps : (j : Uuid) → status_of j w ≡ some completed → status_of j w' ≡ some completed

pub KeepsCompleted-refl : (w : World) → KeepsCompleted w w
KeepsCompleted-refl w = record { keeps = λ j h. h }

pub KeepsCompleted-trans :
    {u v w : World} → KeepsCompleted u v → KeepsCompleted v w → KeepsCompleted u w
KeepsCompleted-trans a b = record { keeps = λ j h. b.keeps j (a.keeps j h) }

pub SameStatuses-KeepsCompleted : {w w' : World} → SameStatuses w w' → KeepsCompleted w w'
SameStatuses-KeepsCompleted q = record { keeps = λ j h. q.same j ∙ h }

pub Ends-KeepsCompleted :
    {i : Uuid} {P : Option InvoiceStatus → Type 0} {w w' : World}
    → Ends i P w w'
    → ((t : Option InvoiceStatus) → P t → status_of i w ≡ some completed → t ≡ some completed)
    → KeepsCompleted w w'
Ends-KeepsCompleted {i} {P} {w} {w'} e keep = record { keeps = one }
  where
    one : (j : Uuid) → status_of j w ≡ some completed → status_of j w' ≡ some completed
    one j h = elim (Bool-cases (j == i)) [
      | inl own ↦
          let same : j ≡ i = ground arith in
          subst (λ k. status_of k w' ≡ some completed) (sym same)
            (keep (status_of i w') e.status (subst (λ k. status_of k w ≡ some completed) same h))
      | inr other ↦ let apart : j ≢ i = λ same. ground arith in e.others j apart ∙ h
    ]
