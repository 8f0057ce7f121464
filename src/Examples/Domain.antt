-- ===== src/Examples/Domain.antt =====
-- The transition table at single statuses (internal/domain/invoice.go).
use tax_module.Prelude.{◌≡◌, ◌↔◌, ◌⊎◌, true, false}
use tax_module.Domain.Status.{InvoiceStatus, failed, submitted, cancelled, can_transition_to}
use tax_module.Domain.Status.Lifecycle.{
  Transition, IsFinal, can_transition_to_iff, no_successor_iff,
}

can_transition_to_iff_example :
    (can_transition_to failed submitted ≡ true) ↔ Transition failed submitted
can_transition_to_iff_example = can_transition_to_iff failed submitted

failed_goes_on :
    (((t : InvoiceStatus) → can_transition_to failed t ≡ false) ↔ IsFinal failed)
    × (IsFinal failed ⊎ (can_transition_to failed cancelled ≡ true))
failed_goes_on = no_successor_iff failed
