-- ===== src/Examples/Server.antt =====
-- The whole program on a shop with one submitted invoice (cmd/server/main.go).
use tax_module.Prelude.{none, some, [], ◌∷◌, refl, ◌≡◌}
use tax_module.Domain.Status.{submitted}
use tax_module.Domain.Errors.{plain, error_text}
use tax_module.Concurrency.Pool.{worker_stops, poller_stops, start, run}
use tax_module.Concurrency.Calls.{bill}
use tax_module.Config.Load.{read_config, load, loaded, config_file_error, validate}
use tax_module.Worker.Settings.{PoolConfig, pool_config}
use tax_module.Server.{
  Outside, broken_off, main, configured, connected, pooled, listened, served, interrupted,
}
use tax_module.Server.Integrity.{Ends, Sound, main-Ends}
use tax_module.Examples.{quiet_env, order, coffee}
use tax_module.Examples.Config.{unset}
use tax_module.Examples.Handler.{shop_binding}
use tax_module.Examples.Integration.{angry_wire, whole}
use tax_module.Examples.Concurrency.{fresh_uuids, mixed, queued}

-- The shutdown of the HTTP server takes too long.
abbrev slow_server : Outside
slow_server = record {
  viper = unset;
  connect = λ d. none;
  listen_error = none;
  shutdown_error = some (plain "context deadline exceeded");
}

abbrev default_pool : PoolConfig
default_pool = record {
  pool_size = 10;
  queue_size = 100;
  poll_interval = 95000000000;
  max_retries = 5;
}

-- Then the program ends and the pool is not told.
pool_not_told :
    main quiet_env angry_wire whole shop_binding slow_server [] [] queued
    ≡ broken_off (start default_pool queued)
unfolding main configured connected pooled pool_config served listened interrupted run load loaded
    config_file_error validate error_text read_config
pool_not_told = refl

main-Ends_example : Ends slow_server (Sound 1 (bill (order submitted)) (coffee ∷ [])) (
    main quiet_env angry_wire whole shop_binding slow_server mixed
      (worker_stops 0 ∷ poller_stops ∷ [])
      queued)
main-Ends_example =
    main-Ends quiet_env angry_wire whole shop_binding 1 (bill (order submitted)) (coffee ∷ [])
      fresh_uuids slow_server mixed (worker_stops 0 ∷ poller_stops ∷ []) queued (refl, tt)
      (record { billed = refl; itemised = refl })
