-- ===== src/Domain/Token.antt =====
-- Access tokens of third parties (internal/domain/access_token.go).
use tax_module.Prelude.{ℕ, ◌+◌, String, Bool, ltb}
use tax_module.Domain.Invoice.{Time, Uuid}

pub record AccessToken : Type 0 where
  pub id : Uuid
  pub provider : String
  pub access_token : String
  pub token_type : String
  pub expires_at : Time
  pub refresh_token : String
  pub scope : String
  pub raw_response : String
  pub created_at : Time
  pub updated_at : Time

-- `time.Now().After(t.ExpiresAt)`, at the time `now`.
abbrev pub is_expired : Time → AccessToken → Bool
is_expired now t = ltb t.expires_at now

-- `time.Now().Add(buffer).After(t.ExpiresAt)`.
unfoldable pub is_expired_with_buffer : Time → ℕ → AccessToken → Bool
is_expired_with_buffer now buffer t = ltb t.expires_at (now + buffer)
