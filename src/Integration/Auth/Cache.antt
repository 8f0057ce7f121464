-- ===== src/Integration/Auth/Cache.antt =====
-- The access token is kept until five minutes before it expires (`getToken`,
-- internal/integration/viettel_client.go).
use tax_module.Prelude.{◌+◌, ◌≤◌, ◌<◌, none, some, ◌≡◌, arith}
use tax_module.Config.{ThirdPartyConfig}
use tax_module.Domain.Token.{AccessToken, is_expired_with_buffer}
use tax_module.Store.{World, Env, ok, time_now}
use tax_module.Repository.Tokens.{find_token, get_token_row}
use tax_module.Repository.Reliable.{IsReliable}
use tax_module.Integration.Wire.{Wire}
use tax_module.Integration.Auth.{get_token, token_found, login}

-- While the database works: `getToken` answers with the stored token, sends no request and writes no
-- table, where this token does not expire within five minutes, which are 300 times 10 ^ 9 nanoseconds;
-- where it does, or where there is none, it logs in.
pub get_token_lem :
    (env : Env) (reliable : IsReliable env) (wire : Wire) (cfg : ThirdPartyConfig) (w : World)
    → (find_token "viettel_sinvoice" w.db.access_tokens ≡ none
        → get_token env wire cfg w ≡ login env wire cfg (record w { tick = w.tick + 1 }))
      × ((t : AccessToken)
          → find_token "viettel_sinvoice" w.db.access_tokens ≡ some t
          → (env.now (w.tick + 1) + 300000000000 ≤ t.expires_at
              → get_token env wire cfg w ≡ (ok t.access_token, record w { tick = w.tick + 2 }))
            × (t.expires_at < env.now (w.tick + 1) + 300000000000
                → get_token env wire cfg w ≡ login env wire cfg (record w { tick = w.tick + 2 })))
unfolding get_token token_found get_token_row time_now is_expired_with_buffer
get_token_lem env reliable wire cfg w = (
  (λ missing. ground (arith, reliable.no_error w.tick)),
  λ t found. (
    (λ fresh. ground (arith, reliable.no_error w.tick)),
    λ old. ground (arith, reliable.no_error w.tick),
  ),
)
