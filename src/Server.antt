-- ===== src/Server.antt =====
-- The entry point, which joins the components (cmd/server/main.go). The opening of the database and the
-- HTTP server are outside. Logging is left out.
pub mod Integrity
use tax_module.Prelude.{Option, none, some, List}
use tax_module.Config.{Config, DatabaseConfig}
use tax_module.Worker.Settings.{PoolConfig, pool_config}
use tax_module.Config.Load.{Viper, load}
use tax_module.Domain.Errors.{Error}
use tax_module.Domain.Publisher.{InvoicePublisher}
use tax_module.Store.{Result, ok, err, World, Env, M}
use tax_module.Integration.Wire.{Wire}
use tax_module.Integration.Mapper.{Floats}
use tax_module.Integration.Publisher.{viettel_publisher}
use tax_module.Service.Submit.{adapter}
use tax_module.Handler.Answers.{Response}
use tax_module.Handler.Requests.{Binding, Incoming}
use tax_module.Handler.Routes.{Operation, handle}
use tax_module.Concurrency.Pool.{System, Turn, shutdown, start, step, run}

-- What viper reads; the errors of `NewPostgresPool`, of `ListenAndServe` and of the shutdown of the HTTP
-- server.
pub record Outside : Type 0 where
  pub viper : Viper
  pub connect : DatabaseConfig → Option Error
  pub listen_error : Option Error
  pub shutdown_error : Option Error

-- How the program ends: it does not start, the pool panics at its settings, it is broken off with the pool
-- at work, or the pool has been told to stop.
pub data Ended : Type 0 where
  exited : Error → Ended
  panicked : Ended
  broken_off : System → Ended
  stopped : System → Ended

module _ (env : Env) (wire : Wire) (floats : Floats) (b : Binding) where
  abbrev pub publisher_of : Config → InvoicePublisher
  publisher_of cfg = viettel_publisher env wire floats cfg.third_party cfg.seller

  -- `NewRouter` with the service.
  abbrev pub router : Config → PoolConfig → Operation → Incoming → M Response
  router cfg pool = handle env b (adapter pool) (publisher_of cfg)

  -- From the signal on.
  unfoldable pub interrupted : Config → PoolConfig → Option Error → List Turn → System → Ended
  interrupted cfg pool (some e) closing s = broken_off s
  interrupted cfg pool none closing s =
      stopped
        (run env pool (publisher_of cfg) closing (step env pool (publisher_of cfg) shutdown s))

  -- With the answer of `ListenAndServe`.
  unfoldable pub listened :
      Outside → Config → PoolConfig → Option Error → List Turn → System → Ended
  listened o cfg pool (some e) closing s = broken_off s
  listened o cfg pool none closing s = interrupted cfg pool o.shutdown_error closing s

  -- The pool and the requests run by a schedule, until the server fails or a signal comes.
  unfoldable pub served : Outside → Config → PoolConfig → List Turn → List Turn → World → Ended
  served o cfg pool serving closing w =
      listened o cfg pool o.listen_error closing
        (run env pool (publisher_of cfg) serving (start pool w))

  -- With the settings of the pool.
  unfoldable pub pooled :
      Outside → Config → Option PoolConfig → List Turn → List Turn → World → Ended
  pooled o cfg none serving closing w = panicked
  pooled o cfg (some pool) serving closing w = served o cfg pool serving closing w

  -- With the answer of `NewPostgresPool`.
  unfoldable pub connected : Outside → Config → Option Error → List Turn → List Turn → World → Ended
  connected o cfg (some e) serving closing w = exited e
  connected o cfg none serving closing w = pooled o cfg (pool_config cfg.worker) serving closing w

  unfoldable pub configured : Outside → Result Config → List Turn → List Turn → World → Ended
  configured o (err e) serving closing w = exited e
  configured o (ok cfg) serving closing w =
      connected o cfg (o.connect cfg.database) serving closing w

  unfoldable pub main : Outside → List Turn → List Turn → World → Ended
  main o serving closing w = configured o (load o.viper) serving closing w
