-- ===== src/Integration/Auth/Requests.antt =====
-- How many requests a login takes (`login` and `getToken`, internal/integration/viettel_client.go).
use tax_module.Prelude.{
  ℕ, ◌+◌, ◌≤◌, ◌==◌, String, Option, none, some, List, [], ◌∷◌, ◌≡◌, refl, arith, Bool-cases, inl,
  inr, is_some, if◌then◌else◌, is_empty,
}
use tax_module.Config.{ThirdPartyConfig}
use tax_module.Domain.Token.{AccessToken, is_expired_with_buffer}
use tax_module.Repository.Tokens.{get_token_row, set_token_row}
use tax_module.Store.{Result, ok, err, Env, World, HttpRequest, time_now, exec, uuid_new}
use tax_module.Integration.Wire.{Wire, HttpReply, no_answer, broken_body, answer}
use tax_module.Integration.Dto.Responses.{AuthResponse}
use tax_module.Integration.Auth.{
  send, login_request, login_reply, get_token, login_decoded, login_body, login_send, login,
  token_found, store_token, provider_name, token_buffer_time,
}

-- Requests that carry an access token, and those that do not.
abbrev pub count_calls : List HttpRequest → ℕ
count_calls [] = 0
count_calls (r ∷ rs) = (if is_some r.cookie then 1 else 0) + count_calls rs

abbrev pub count_logins : List HttpRequest → ℕ
count_logins [] = 0
count_logins (r ∷ rs) = (if is_some r.cookie then 0 else 1) + count_logins rs

-- From one world to another, at most so many requests of either kind have been sent.
pub record Sends (calls logins : ℕ) (w w' : World) : Type 0 where
  pub calls_le : count_calls w'.sent ≤ calls + count_calls w.sent
  pub logins_le : count_logins w'.sent ≤ logins + count_logins w.sent

pub Sends-same : {w w' : World} (a b : ℕ) → w'.sent ≡ w.sent → Sends a b w w'
Sends-same a b e = record { calls_le = ground (arith, e); logins_le = ground (arith, e) }

pub Sends-trans :
    {a b c d : ℕ} {u v w : World} → Sends a b u v → Sends c d v w → Sends (a + c) (b + d) u w
Sends-trans s t = record {
  calls_le = omega (arith, s.calls_le, t.calls_le);
  logins_le = omega (arith, s.logins_le, t.logins_le);
}

module _ (env : Env) where
  sent_token_row : (p : String) (w : World) → (get_token_row env p w).1.sent ≡ w.sent
  unfolding get_token_row
  sent_token_row p w = ground arith

  sent_set_token : (t : AccessToken) (w : World) → (set_token_row env t w).1.sent ≡ w.sent
  unfolding set_token_row uuid_new exec
  sent_set_token t w = ground arith

module _ (env : Env) (wire : Wire) (cfg : ThirdPartyConfig) where
  login_request-Sends :
      (body : String) (w : World)
      → Sends 0 1 w (send env wire cfg (login_request env wire cfg body) w).1
  unfolding send
  login_request-Sends body w = record { calls_le = omega arith; logins_le = omega arith }

  decoded-Sends :
      (raw : String) (a : Result AuthResponse) (w : World)
      → Sends 0 0 w (login_decoded env wire cfg raw a w).1
  unfolding login_decoded store_token time_now
  decoded-Sends raw (err e) w = Sends-same 0 0 refl
  decoded-Sends raw (ok auth) w = elim (Bool-cases (is_empty auth.access_token)) [
    | inl blank ↦ rw blank (Sends-same 0 0 refl)
    | inr given ↦ rw given (Sends-same 0 0 (sent_set_token env _ (record w { tick = w.tick + 1 })))
  ]

  login_reply-Sends : (r : HttpReply) (w : World) → Sends 0 0 w (login_reply env wire cfg r w).1
  unfolding login_reply
  login_reply-Sends (no_answer e) w = Sends-same 0 0 refl
  login_reply-Sends (broken_body n e) w = Sends-same 0 0 refl
  login_reply-Sends (answer status raw) w = elim (Bool-cases (status == 200)) [
    | inl good ↦ rw good (decoded-Sends raw (wire.decode_auth raw) w)
    | inr bad ↦ rw bad (Sends-same 0 0 refl)
  ]

  login_send-Sends :
      (body : String) (e : Option String) (w : World)
      → Sends 0 1 w (login_send env wire cfg body e w).1
  unfolding login_send
  login_send-Sends body (some e) w = Sends-same 0 1 refl
  login_send-Sends body none w =
      let (reply, w₁) = send env wire cfg (login_request env wire cfg body) w in
      Sends-trans (login_request-Sends body w) (login_reply-Sends reply w₁)

  login_body-Sends :
      (body : Result String) (w : World) → Sends 0 1 w (login_body env wire cfg body w).1
  unfolding login_body
  login_body-Sends (err e) w = Sends-same 0 1 refl
  login_body-Sends (ok body) w = login_send-Sends body (wire.new_request "POST" cfg.auth_url) w

  pub login-Sends : (w : World) → Sends 0 1 w (login env wire cfg w).1
  unfolding login
  login-Sends w =
      login_body-Sends
        (wire.encode_auth (record { username = cfg.username; password = cfg.password })) w

  token_found-Sends :
      (t : Result AccessToken) (w : World) → Sends 0 1 w (token_found env wire cfg t w).1
  unfolding token_found time_now
  token_found-Sends (err e) w = login-Sends w
  token_found-Sends (ok token) w =
      elim (Bool-cases (is_expired_with_buffer (env.now w.tick) token_buffer_time token)) [
        | inl expired ↦
            rw expired
              (Sends-trans (Sends-same 0 0 refl) (login-Sends (record w { tick = w.tick + 1 })))
        | inr fresh ↦ rw fresh (Sends-same 0 1 refl)
      ]

  pub get_token-Sends : (w : World) → Sends 0 1 w (get_token env wire cfg w).1
  unfolding get_token
  get_token-Sends w =
      let (found, w₁) = get_token_row env provider_name w in
      Sends-trans (Sends-same 0 0 (sent_token_row env provider_name w)) (token_found-Sends found w₁)
