-- ===== src/Server/Integrity.antt =====
-- How the program ends, and that it keeps what is billed (cmd/server/main.go).
use tax_module.Prelude.{
  ℕ, ◌==◌, false, Option, none, some, List, [], arith, ◌++◌, ◌∷◌, ◌≡◌, subst, refl, true, is_some,
  ◌||◌, ◌⊎◌, inl, inr,
}
use tax_module.Config.{Config}
use tax_module.Domain.Publisher.{InvoicePublisher}
use tax_module.Worker.Settings.{PoolConfig, pool_config}
use tax_module.Config.Load.{load}
use tax_module.Domain.Errors.{Error}
use tax_module.Domain.Invoice.{Invoice, InvoiceItem, Uuid}
use tax_module.Store.{Result, ok, err, World, Env}
use tax_module.Integration.Wire.{Wire}
use tax_module.Integration.Mapper.{Floats}
use tax_module.Integration.Publisher.Laws.{viettel_publisher-laws}
use tax_module.Handler.Requests.{Binding}
use tax_module.Concurrency.Pool.{System, Turn, shutdown, start, run, step}
use tax_module.Concurrency.Shutdown.{run-append}
use tax_module.Concurrency.Intact.{IsIntact}
use tax_module.Concurrency.Integrity.{schedule-IsIntact}
use tax_module.Concurrency.Statuses.{AllLive, schedule-AllLive}
use tax_module.Server.{
  Outside, Ended, exited, panicked, broken_off, stopped, pooled, listened, publisher_of,
  interrupted, served, connected, configured, main,
}

-- Every invoice has a status that the program gives, and the invoice i its bill and its items.
abbrev pub Sound : Uuid → Invoice → List InvoiceItem → System → Type 0
Sound i d items s = AllLive s.world.db × IsIntact i d items s.world.db

-- The program has a configuration, a connection to the database and a pool.
abbrev pub HasStarted : Outside → Type 0
HasStarted o =
    (cfg : Config) × (pool : PoolConfig) × (load o.viper ≡ ok cfg)
    × (o.connect cfg.database ≡ none)
    × (pool_config cfg.worker ≡ some pool)

-- Why the program did not start.
abbrev pub HasFailed : Outside → Error → Type 0
HasFailed o e =
    (load o.viper ≡ err e)
    ⊎ ((cfg : Config) × (load o.viper ≡ ok cfg) × (o.connect cfg.database ≡ some e))

-- Settings with which the pool panics.
abbrev pub HasPanicked : Outside → Type 0
HasPanicked o =
    (cfg : Config) × (load o.viper ≡ ok cfg)
    × (o.connect cfg.database ≡ none)
    × (pool_config cfg.worker ≡ none)

-- Each end of the program has its cause; a state that it leaves satisfies P, and the pool has been
-- cancelled where neither the HTTP server nor its shutdown failed.
abbrev pub Ends : Outside → (System → Type 0) → Ended → Type 0
Ends o P (exited e) = HasFailed o e
Ends o P panicked = HasPanicked o
Ends o P (broken_off s) =
    HasStarted o × (is_some o.listen_error || is_some o.shutdown_error ≡ true) × P s
Ends o P (stopped s) =
    HasStarted o
    × (is_some o.listen_error || is_some o.shutdown_error ≡ false)
    × (s.cancelled ≡ true)
    × P s

no_listening : {e : Error} (l s : Option Error) → l ≡ some e → is_some l || is_some s ≡ true
no_listening l s h = ground (arith, h)

no_stop : {e : Error} (l s : Option Error) → s ≡ some e → is_some l || is_some s ≡ true
no_stop l s h = ground (arith, h)

no_failure : (l s : Option Error) → l ≡ none → s ≡ none → is_some l || is_some s ≡ false
no_failure l s h k = ground (arith, h, k)

module _ (env : Env) (cfg : PoolConfig) (publisher : InvoicePublisher) where
  step-cancelled :
      (t : Turn) (s : System) → s.cancelled ≡ true → (step env cfg publisher t s).cancelled ≡ true
  unfolding step
  step-cancelled shutdown s h = refl
  step-cancelled _ s h = h

  run-cancelled :
      (ts : List Turn) (s : System)
      → s.cancelled ≡ true
      → (run env cfg publisher ts s).cancelled ≡ true
  unfolding run
  run-cancelled [] s h = h
  run-cancelled (t ∷ ts) s h = run-cancelled ts (step env cfg publisher t s) (step-cancelled t s h)

module _ (env : Env) (wire : Wire) (floats : Floats) (b : Binding) where
  module _ (P : System → Type 0) (w : World) (o : Outside)
      (always : (cfg : Config) (pool : PoolConfig) (ts : List Turn)
        → P (run env pool (publisher_of env wire floats b cfg) ts (start pool w))) where
    interrupted-Ends :
        (cfg : Config) (pool : PoolConfig) (e : Option Error) (serving closing : List Turn)
        → HasStarted o
        → o.listen_error ≡ none
        → o.shutdown_error ≡ e
        → Ends o P (
            interrupted env wire floats b cfg pool e closing
              (run env pool (publisher_of env wire floats b cfg) serving (start pool w)))
    unfolding interrupted run step
    interrupted-Ends cfg pool (some e) serving closing started fine late =
        (started, no_stop o.listen_error o.shutdown_error late, always cfg pool serving)
    interrupted-Ends cfg pool none serving closing started fine told =
        let publisher = publisher_of env wire floats b cfg in
        (
          started,
          no_failure o.listen_error o.shutdown_error fine told,
          run-cancelled env pool publisher closing
              (step env pool publisher shutdown (run env pool publisher serving (start pool w)))
              refl,
          subst P (run-append env pool publisher serving (shutdown ∷ closing) (start pool w))
              (always cfg pool (serving ++ shutdown ∷ closing)),
        )

    listened-Ends :
        (cfg : Config) (pool : PoolConfig) (e : Option Error) (serving closing : List Turn)
        → HasStarted o
        → o.listen_error ≡ e
        → Ends o P (
            listened env wire floats b o cfg pool e closing
              (run env pool (publisher_of env wire floats b cfg) serving (start pool w)))
    unfolding listened
    listened-Ends cfg pool (some e) serving closing started failed' =
        (started, no_listening o.listen_error o.shutdown_error failed', always cfg pool serving)
    listened-Ends cfg pool none serving closing started fine =
        interrupted-Ends cfg pool o.shutdown_error serving closing started fine refl

    served-Ends :
        (cfg : Config) (pool : PoolConfig) (serving closing : List Turn)
        → HasStarted o
        → Ends o P (served env wire floats b o cfg pool serving closing w)
    unfolding served
    served-Ends cfg pool serving closing started =
        listened-Ends cfg pool o.listen_error serving closing started refl

    pooled-Ends :
        (cfg : Config) (pool : Option PoolConfig) (serving closing : List Turn)
        → load o.viper ≡ ok cfg
        → o.connect cfg.database ≡ none
        → pool_config cfg.worker ≡ pool
        → Ends o P (pooled env wire floats b o cfg pool serving closing w)
    unfolding pooled
    pooled-Ends cfg none serving closing held fine no_pool = (cfg, held, fine, no_pool)
    pooled-Ends cfg (some pool) serving closing held fine made =
        served-Ends cfg pool serving closing (cfg, pool, held, fine, made)

    connected-Ends :
        (cfg : Config) (e : Option Error) (serving closing : List Turn)
        → load o.viper ≡ ok cfg
        → o.connect cfg.database ≡ e
        → Ends o P (connected env wire floats b o cfg e serving closing w)
    unfolding connected
    connected-Ends cfg (some e) serving closing held failed' = inr (cfg, held, failed')
    connected-Ends cfg none serving closing held fine =
        pooled-Ends cfg (pool_config cfg.worker) serving closing held fine refl

    configured-Ends :
        (r : Result Config) (serving closing : List Turn)
        → load o.viper ≡ r
        → Ends o P (configured env wire floats b o r serving closing w)
    unfolding configured
    configured-Ends (err e) serving closing failed' = inl failed'
    configured-Ends (ok cfg) serving closing held =
        connected-Ends cfg (o.connect cfg.database) serving closing held refl

  -- Whatever the configuration, the database, Viettel, the HTTP server and the schedule of all
  -- goroutines do: the program exits only with the error of the configuration or of the
  -- connection; it panics only with a connection and settings that give no pool; it is broken off only
  -- where the HTTP server or its shutdown failed, and ends with the pool cancelled only where neither
  -- did, both after a configuration, a connection and a pool; and in the state that it leaves then an
  -- invoice whose uuid is given to no other has the buyer, the amounts and the items that it had
  -- before, and every invoice is a draft, submitted, processing, completed or failed where this was so
  -- before.
  pub main-Ends :
      (i : Uuid) (d : Invoice) (items : List InvoiceItem)
      (fresh : (n : ℕ) → (env.new_uuid n == i) ≡ false) (o : Outside) (serving closing : List Turn)
      (w : World)
      → AllLive w.db
      → IsIntact i d items w.db
      → Ends o (Sound i d items) (main env wire floats b o serving closing w)
  unfolding main
  main-Ends i d items fresh o serving closing w live intact =
      configured-Ends (Sound i d items) w o
        (λ cfg pool ts.
          let laws = viettel_publisher-laws env wire floats cfg.third_party cfg.seller in
          (
            schedule-AllLive env pool (publisher_of env wire floats b cfg) laws ts w live,
            schedule-IsIntact env i d items fresh pool (publisher_of env wire floats b cfg) laws ts
                w intact,
          ))
        (load o.viper) serving closing refl
