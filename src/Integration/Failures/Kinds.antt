-- ===== src/Integration/Failures/Kinds.antt =====
-- Which of the errors are tried again (`ParseViettelError`, internal/integration/viettel_dto.go).
use text.Mathlib.Text.{◌==◌ as str_eq}
use text.Mathlib.TextEquality.{eq_iff}
use tax_module.Prelude.{
  String, true, false, Option, none, some, List, [], ◌∷◌, All, ◌≡◌, ◌≢◌, refl, ap, sym, ◌↔◌, not,
  Bool, Bool-cases, inl, inr, arith,
}
use tax_module.Integration.Dto.Responses.{ViettelErrorResponse}
use tax_module.Integration.Failures.{
  code_of, viettel_err_code_map, non_retryable, decoded_error, parse_viettel_error,
}

-- The messages about the data of the invoice itself.
abbrev pub permanent_messages : List String
permanent_messages =
    "TAX_CODE_REQUIRED" ∷ "TAX_CODE_INVALID" ∷ "INVOICE_VALID_INPUT_INVALID_TAX_CODE"
    ∷ "INVOICE_VALID_INPUT_INVALID_BUYER_TAX_CODE" ∷ "TRANSACTION_UUID_REQUIRED"
    ∷ "BUYER_EMAIL_REQUIRED" ∷ "BUYER_EMAIL_ADDRESS_FORMAT" ∷ "NOT_FOUND_DATA" ∷ []

-- The body was read, and its message is none of the permanent ones.
abbrev pub Retries : Option ViettelErrorResponse → Type 0
Retries decoded =
    (resp : ViettelErrorResponse) × (decoded ≡ some resp)
    × All (λ key. resp.message ≢ key) permanent_messages

abbrev retried : String → Bool
retried message = not (non_retryable (code_of viettel_err_code_map message))

-- A message that is retried is no message that is not.
retried-ne : (message key : String) → retried key ≡ false → retried message ≡ true → message ≢ key
retried-ne message key refused h e = absurd (ground (arith, refused, h, ap retried e))

retried-All :
    (message : String) → retried message ≡ true → All (λ key. message ≢ key) permanent_messages
unfolding code_of
retried-All message h = (
  retried-ne message _ refl h,
  (
    retried-ne message _ refl h,
    (
      retried-ne message _ refl h,
      (
        retried-ne message _ refl h,
        (
          retried-ne message _ refl h,
          (
            retried-ne message _ refl h,
            (retried-ne message _ refl h, (retried-ne message _ refl h, tt)),
          ),
        ),
      ),
    ),
  ),
)

key-ne : (key message : String) → message ≢ key → str_eq key message ≡ false
key-ne key message ne = elim (Bool-cases (str_eq key message)) [
  | inl same ↦ absurd (ne (sym ((eq_iff key message).0 same)))
  | inr other_message ↦ other_message
]

All-retried :
    (message : String) → All (λ key. message ≢ key) permanent_messages → retried message ≡ true
unfolding code_of
All-retried message (a, (b, (c, (d, (e, (f, (g, (h, _)))))))) =
    rw
      (
        key-ne _ message a,
        key-ne _ message b,
        key-ne _ message c,
        key-ne _ message d,
        key-ne _ message e,
        key-ne _ message f,
        key-ne _ message g,
        key-ne _ message h,
      )
      (ground arith)

decoded-Retries :
    (raw : String) (d : Option ViettelErrorResponse)
    → (decoded_error raw d).retryable ≡ true
    → Retries d
decoded-Retries raw none h = cc
decoded-Retries raw (some resp) h = (resp, refl, retried-All resp.message h)

Retries-decoded :
    (raw : String) (d : Option ViettelErrorResponse)
    → Retries d
    → (decoded_error raw d).retryable ≡ true
Retries-decoded raw d (resp, e, permitted) = rw e (All-retried resp.message permitted)

-- The body of an HTTP 400 gives an error that is worth a retry exactly when it can be read and its
-- message is none of the eight about the data of the invoice itself; a body that cannot be read is
-- never worth one, although its code is UNKNOWN too.
pub parse_viettel_error-retryable_iff :
    (decode : String → Option ViettelErrorResponse) (raw : String)
    → ((parse_viettel_error decode raw).retryable ≡ true) ↔ Retries (decode raw)
unfolding parse_viettel_error
parse_viettel_error-retryable_iff decode raw =
    (decoded-Retries raw (decode raw), Retries-decoded raw (decode raw))
