-- ===== src/Integration/Client/Requests.antt =====
-- How many requests a call of the Viettel API takes (`doAuthenticatedRequest`,
-- internal/integration/viettel_client.go).
use tax_module.Prelude.{ℕ, ◌==◌, String, Option, none, some, refl, arith, Bool-cases, inl, inr}
use tax_module.Config.{ThirdPartyConfig}
use tax_module.Store.{Result, ok, err, Env, World}
use tax_module.Integration.Wire.{Wire}
use tax_module.Integration.Auth.{send, get_token, login}
use tax_module.Integration.Client.{
  retry_with, do_authenticated_request, do_request, first_reply, do_request_checked, with_token,
  Call, api_request,
}
use tax_module.Integration.Auth.Requests.{
  Sends, Sends-same, Sends-trans, login-Sends, get_token-Sends,
}

module _ (env : Env) (wire : Wire) (cfg : ThirdPartyConfig) where
  call-Sends :
      (call : Call) (token : String) (w : World)
      → Sends 1 0 w (send env wire cfg (api_request env wire cfg call token) w).1
  unfolding send
  call-Sends call token w = record { calls_le = omega arith; logins_le = omega arith }

  checked-Sends :
      (call : Call) (token : String) (e : Option String) (w : World)
      → Sends 1 0 w (do_request_checked env wire cfg call token e w).1
  unfolding do_request_checked
  checked-Sends call token (some e) w = Sends-same 1 0 refl
  checked-Sends call token none w = call-Sends call token w

  request-Sends :
      (call : Call) (token : String) (w : World)
      → Sends 1 0 w (do_request env wire cfg call token w).1
  unfolding do_request
  request-Sends call token w = checked-Sends call token (wire.new_request call.method call.url) w

  retry-Sends :
      (call : Call) (t : Result String) (w : World)
      → Sends 1 0 w (retry_with env wire cfg call t w).1
  unfolding retry_with
  retry-Sends call (err e) w = Sends-same 1 0 refl
  retry-Sends call (ok token) w = request-Sends call token w

  first-Sends :
      (call : Call) (r : Result (String × ℕ)) (w : World)
      → Sends 1 1 w (first_reply env wire cfg call r w).1
  unfolding first_reply
  first-Sends call (err e) w = Sends-same 1 1 refl
  first-Sends call (ok (raw, status)) w = elim (Bool-cases (status == 401)) [
    | inl denied ↦
        let (token, w₁) = login env wire cfg w in
        rw denied (Sends-trans (login-Sends env wire cfg w) (retry-Sends call token w₁))
    | inr fine ↦ rw fine (Sends-same 1 1 refl)
  ]

  with_token-Sends :
      (call : Call) (t : Result String) (w : World)
      → Sends 2 1 w (with_token env wire cfg call t w).1
  unfolding with_token
  with_token-Sends call (err e) w = Sends-same 2 1 refl
  with_token-Sends call (ok token) w =
      let (r, w₁) = do_request env wire cfg call token w in
      Sends-trans (request-Sends call token w) (first-Sends call r w₁)

  -- Whatever Viettel, the clock and the database answer, one call of the API sends its request at most
  -- twice and logs in at most twice, so that no run of refusals (401) keeps it going.
  pub do_authenticated_request-Sends :
      (call : Call) (w : World) → Sends 2 2 w (do_authenticated_request env wire cfg call w).1
  unfolding do_authenticated_request
  do_authenticated_request-Sends call w =
      let (t, w₁) = get_token env wire cfg w in
      Sends-trans (get_token-Sends env wire cfg w) (with_token-Sends call t w₁)
