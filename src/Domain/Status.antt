-- ===== src/Domain/Status.antt =====
-- The lifecycle state of an invoice (internal/domain/invoice.go).
pub mod Lifecycle
pub mod Equality
use text.Mathlib.Text.{◌==◌ as str_eq}
use tax_module.Prelude.{String, Bool, true, false, Option, none, some, List, [], ◌∷◌, if◌then◌else◌}

-- `type InvoiceStatus string` with its constants; `other` is any text that is none of them.
pub data InvoiceStatus : Type 0 where
  draft submitted processing completed failed cancelled : InvoiceStatus
  other : String → InvoiceStatus

-- The text of a status.
unfoldable pub status_text : InvoiceStatus → String
status_text draft = "draft"
status_text submitted = "submitted"
status_text processing = "processing"
status_text completed = "completed"
status_text failed = "failed"
status_text cancelled = "cancelled"
status_text (other s) = s

-- The conversion `InvoiceStatus(s)`.
unfoldable pub status_of_text : String → InvoiceStatus
status_of_text s =
    if str_eq s "draft"
    then draft
    else if str_eq s "submitted"
    then submitted
    else if str_eq s "processing"
    then processing
    else if str_eq s "completed"
    then completed
    else if str_eq s "failed"
    then failed
    else if str_eq s "cancelled"
    then cancelled
    else other s

-- Go's `==` on statuses.
abbrev pub status_eq : InvoiceStatus → InvoiceStatus → Bool
status_eq draft draft = true
status_eq submitted submitted = true
status_eq processing processing = true
status_eq completed completed = true
status_eq failed failed = true
status_eq cancelled cancelled = true
status_eq (other s) (other t) = str_eq s t
status_eq _ _ = false

-- `allowed, ok := ValidTransitions[s]`
abbrev pub valid_transitions : InvoiceStatus → Option (List InvoiceStatus)
valid_transitions draft = some (submitted ∷ cancelled ∷ [])
valid_transitions submitted = some (processing ∷ failed ∷ cancelled ∷ [])
valid_transitions processing = some (completed ∷ failed ∷ cancelled ∷ [])
valid_transitions failed = some (submitted ∷ cancelled ∷ [])
valid_transitions _ = none

-- The loop of `CanTransitionTo` over the allowed targets.
abbrev pub allows : List InvoiceStatus → InvoiceStatus → Bool
allows [] target = false
allows (a ∷ allowed) target = if status_eq a target then true else allows allowed target

unfoldable pub can_transition_to : InvoiceStatus → InvoiceStatus → Bool
can_transition_to s target = elim (valid_transitions s) [
  | none ↦ false
  | some allowed ↦ allows allowed target
]
