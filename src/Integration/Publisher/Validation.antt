-- ===== src/Integration/Publisher/Validation.antt =====
-- Which failures of the publisher a publish job takes for permanent (internal/integration and
-- internal/worker/pool.go).
use tax_module.Prelude.{ℕ, String, ◌≡◌, ◌↔◌, true, false, is_some, arith}
use tax_module.Config.{ThirdPartyConfig}
use tax_module.Domain.Errors.{Error, as_viettel}
use tax_module.Store.{err, Env}
use tax_module.Integration.Wire.{Wire}
use tax_module.Integration.Failures.{parse_viettel_error}
use tax_module.Integration.Client.{check_status}
use tax_module.Worker.Publish.{permanent}

module _ (env : Env) (wire : Wire) (cfg : ThirdPartyConfig) where
  -- Of the failures that the client makes of an HTTP status, the permanent ones are those of status
  -- 400 whose body is not worth a retry; any other status, the other 4xx included, is tried again.
  pub check_status-permanent_iff :
      (raw : String) (status : ℕ) (e : Error)
      → check_status env wire cfg raw status ≡ err e
      → (is_some (permanent e) ≡ true)
        ↔ ((status ≡ 400) × ((parse_viettel_error wire.decode_error raw).retryable ≡ false))
  unfolding as_viettel
  check_status-permanent_iff raw status e h = (λ p. ground arith, λ q. ground arith)
