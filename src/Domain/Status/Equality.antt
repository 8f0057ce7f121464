-- ===== src/Domain/Status/Equality.antt =====
-- The equality of statuses (`InvoiceStatus`, internal/domain/invoice.go).
use text.Mathlib.TextEquality.{eq_iff}
use tax_module.Prelude.{true, ◌≡◌, refl, ap, subst, ◌↔◌}
use tax_module.Domain.Status.{
  InvoiceStatus, draft, submitted, processing, completed, failed, cancelled, other, status_eq,
}

status_eq-same : (s : InvoiceStatus) → status_eq s s ≡ true
status_eq-same (other s) = (eq_iff s s).1 refl
status_eq-same draft = refl
status_eq-same submitted = refl
status_eq-same processing = refl
status_eq-same completed = refl
status_eq-same failed = refl
status_eq-same cancelled = refl

same_of_test : (s t : InvoiceStatus) → status_eq s t ≡ true → s ≡ t
same_of_test draft draft h = refl
same_of_test submitted submitted h = refl
same_of_test processing processing h = refl
same_of_test completed completed h = refl
same_of_test failed failed h = refl
same_of_test cancelled cancelled h = refl
same_of_test (other s) (other t) h = ap other ((eq_iff s t).0 h)
same_of_test _ _ h = cc

pub status_eq_iff : (s t : InvoiceStatus) → (status_eq s t ≡ true) ↔ (s ≡ t)
status_eq_iff s t = (same_of_test s t, λ e. subst (λ u. status_eq s u ≡ true) e (status_eq-same s))
