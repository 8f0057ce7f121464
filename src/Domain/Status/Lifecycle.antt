-- ===== src/Domain/Status/Lifecycle.antt =====
-- What the transition table of internal/domain/invoice.go means: the relation that it decides.
use tax_module.Prelude.{◌≡◌, refl, ◌↔◌, ◌⊎◌, inl, inr, true, false, arith}
use tax_module.Prelude.{String}
use tax_module.Domain.Status.{
  InvoiceStatus, draft, submitted, processing, completed, failed, cancelled, other,
  can_transition_to,
}

-- The lifecycle, edge by edge.
pub data Transition : InvoiceStatus → InvoiceStatus → Type 0 where
  submit : Transition draft submitted
  send : Transition submitted processing
  complete : Transition processing completed
  reject : Transition submitted failed
  break_off : Transition processing failed
  retry : Transition failed submitted
  drop_draft : Transition draft cancelled
  drop_submitted : Transition submitted cancelled
  drop_processing : Transition processing cancelled
  drop_failed : Transition failed cancelled

-- The statuses that nothing leaves.
pub data IsFinal : InvoiceStatus → Type 0 where
  done : IsFinal completed
  dropped : IsFinal cancelled
  unknown : (s : String) → IsFinal (other s)

ruleset edges = (
  submit, send, complete, reject, break_off, retry, drop_draft, drop_submitted, drop_processing,
  drop_failed,
)

allowed-Transition : (s t : InvoiceStatus) → can_transition_to s t ≡ true → Transition s t
unfolding can_transition_to
allowed-Transition draft t h = grind (arith, edges)
allowed-Transition submitted t h = grind (arith, edges)
allowed-Transition processing t h = grind (arith, edges)
allowed-Transition failed t h = grind (arith, edges)
allowed-Transition _ t h = cc

Transition-allowed : {s t : InvoiceStatus} → Transition s t → can_transition_to s t ≡ true
unfolding can_transition_to
Transition-allowed submit = refl
Transition-allowed _ = refl

-- `CanTransitionTo` answers true exactly on the ten edges of the lifecycle, for every pair of
-- statuses, texts that are no status included.
pub can_transition_to_iff : (s t : InvoiceStatus) → (can_transition_to s t ≡ true) ↔ Transition s t
can_transition_to_iff s t = (allowed-Transition s t, Transition-allowed)

stuck-IsFinal : (s : InvoiceStatus) → can_transition_to s cancelled ≡ false → IsFinal s
unfolding can_transition_to
stuck-IsFinal completed h = done
stuck-IsFinal cancelled h = dropped
stuck-IsFinal (other s) h = unknown s
stuck-IsFinal _ h = cc

IsFinal-stuck : {s : InvoiceStatus} (t : InvoiceStatus) → IsFinal s → can_transition_to s t ≡ false
unfolding can_transition_to
IsFinal-stuck t done = refl
IsFinal-stuck t _ = refl

final_or_open : (s : InvoiceStatus) → IsFinal s ⊎ (can_transition_to s cancelled ≡ true)
unfolding can_transition_to
final_or_open completed = inl done
final_or_open cancelled = inl dropped
final_or_open (other x) = inl (unknown x)
final_or_open _ = inr refl

-- A status has no successor at all exactly when it is completed, cancelled or no known status;
-- every other status can at least be cancelled.
pub no_successor_iff :
    (s : InvoiceStatus)
    → (((t : InvoiceStatus) → can_transition_to s t ≡ false) ↔ IsFinal s)
      × (IsFinal s ⊎ (can_transition_to s cancelled ≡ true))
no_successor_iff s =
    ((λ h. stuck-IsFinal s (h cancelled), λ f t. IsFinal-stuck t f), final_or_open s)
