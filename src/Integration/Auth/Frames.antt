-- ===== src/Integration/Auth/Frames.antt =====
-- A login writes the table of access tokens and no other (internal/integration/viettel_client.go).
use tax_module.Prelude.{
  ℕ, String, Option, none, some, ◌+◌, ◌==◌, refl, ◌∙◌, arith, Bool-cases, inl, inr,
}
use tax_module.Config.{ThirdPartyConfig}
use tax_module.Domain.Publisher.{SameTables}
use tax_module.Store.{HttpRequest, Result, ok, err, Env, World, M, time_now, exec, uuid_new}
use tax_module.Integration.Wire.{Wire}
use tax_module.Repository.Tokens.{get_token_row, set_token_row, token_id, upsert_token}
use tax_module.Domain.Token.{AccessToken}
use tax_module.Integration.Auth.{
  send, token_buffer_time, login_reply, get_token, login_decoded, login_body, login_send, login,
  token_found, provider_name, store_token, AuthResponse, HttpReply, login_request, no_answer,
  is_empty, broken_body, answer,
}
use tax_module.Domain.Token.{is_expired_with_buffer}

pub SameTables-refl : (w : World) → SameTables w w
SameTables-refl w = record {
  same_invoices = refl;
  same_items = refl;
  same_history = refl;
  same_queue = refl;
}

pub SameTables-trans : {u v w : World} → SameTables u v → SameTables v w → SameTables u w
SameTables-trans a b = record {
  same_invoices = b.same_invoices ∙ a.same_invoices;
  same_items = b.same_items ∙ a.same_items;
  same_history = b.same_history ∙ a.same_history;
  same_queue = b.same_queue ∙ a.same_queue;
}

-- An action that leaves the tables of invoices and the queue as they are.
abbrev pub Leaves : {A : Type 0} → M A → Type 0
Leaves m = (w : World) → SameTables w (m w).1

module _ (env : Env) where
  tick-Leaves : (w : World) (n : ℕ) → SameTables w (record w { tick = n })
  tick-Leaves w n = record {
    same_invoices = refl;
    same_items = refl;
    same_history = refl;
    same_queue = refl;
  }

  exec-Leaves : (t : AccessToken) (w : World) → SameTables w (exec env (upsert_token t) w).1
  unfolding exec upsert_token
  exec-Leaves t w = ground arith

  token_id-Leaves : (n : ℕ) → Leaves (token_id env n)
  unfolding token_id uuid_new
  token_id-Leaves n w = ground arith

  token_row-Leaves : (p : String) → Leaves (get_token_row env p)
  unfolding get_token_row
  token_row-Leaves p w = ground arith

  set_token-Leaves : (t : AccessToken) → Leaves (set_token_row env t)
  unfolding set_token_row
  set_token-Leaves t w =
      let (id, w₁) = token_id env t.id w in
      SameTables-trans (token_id-Leaves t.id w) (
        SameTables-trans (tick-Leaves w₁ (w₁.tick + 1))
          (exec-Leaves _ (record w₁ { tick = w₁.tick + 1 })))

module _ (env : Env) (wire : Wire) (cfg : ThirdPartyConfig) where
  pub send-Leaves : (r : HttpRequest) → Leaves (send env wire cfg r)
  unfolding send
  send-Leaves r w = record {
    same_invoices = refl;
    same_items = refl;
    same_history = refl;
    same_queue = refl;
  }

  decoded-Leaves :
      (raw : String) (a : Result AuthResponse) → Leaves (login_decoded env wire cfg raw a)
  unfolding login_decoded store_token time_now
  decoded-Leaves raw (err e) w = SameTables-refl w
  decoded-Leaves raw (ok auth) w = elim (Bool-cases (is_empty auth.access_token)) [
    | inl blank ↦ rw blank (SameTables-refl w)
    | inr given ↦ rw given (
        SameTables-trans (tick-Leaves env w (w.tick + 1))
          (set_token-Leaves env _ (record w { tick = w.tick + 1 })))
  ]

  login_reply-Leaves : (r : HttpReply) → Leaves (login_reply env wire cfg r)
  unfolding login_reply
  login_reply-Leaves (no_answer e) w = SameTables-refl w
  login_reply-Leaves (broken_body n e) w = SameTables-refl w
  login_reply-Leaves (answer status raw) w = elim (Bool-cases (status == 200)) [
    | inl good ↦ rw good (decoded-Leaves raw (wire.decode_auth raw) w)
    | inr bad ↦ rw bad (SameTables-refl w)
  ]

  login_send-Leaves : (body : String) (e : Option String) → Leaves (login_send env wire cfg body e)
  unfolding login_send
  login_send-Leaves body (some e) w = SameTables-refl w
  login_send-Leaves body none w =
      let request = login_request env wire cfg body in
      SameTables-trans (send-Leaves request w)
        (login_reply-Leaves (send env wire cfg request w).0 (send env wire cfg request w).1)

  login_body-Leaves : (body : Result String) → Leaves (login_body env wire cfg body)
  unfolding login_body
  login_body-Leaves (err e) w = SameTables-refl w
  login_body-Leaves (ok body) w = login_send-Leaves body (wire.new_request "POST" cfg.auth_url) w

  pub login-Leaves : Leaves (login env wire cfg)
  unfolding login
  login-Leaves w =
      login_body-Leaves
        (wire.encode_auth (record { username = cfg.username; password = cfg.password })) w

  token_found-Leaves : (t : Result AccessToken) → Leaves (token_found env wire cfg t)
  unfolding token_found time_now
  token_found-Leaves (err e) w = login-Leaves w
  token_found-Leaves (ok token) w =
      let w₁ : World = record w { tick = w.tick + 1 } in
      elim (Bool-cases (is_expired_with_buffer (env.now w.tick) token_buffer_time token)) [
        | inl expired ↦
            rw expired (SameTables-trans (tick-Leaves env w (w.tick + 1)) (login-Leaves w₁))
        | inr fresh ↦ rw fresh (tick-Leaves env w (w.tick + 1))
      ]

  pub get_token-Leaves : Leaves (get_token env wire cfg)
  unfolding get_token
  get_token-Leaves w =
      let (found, w₁) = get_token_row env provider_name w in
      SameTables-trans (token_row-Leaves env provider_name w) (token_found-Leaves found w₁)
