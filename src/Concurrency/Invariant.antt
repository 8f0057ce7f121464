-- ===== src/Concurrency/Invariant.antt =====
-- A property that every call keeps holds through every schedule of the pool (internal/worker/pool.go).
use tax_module.Prelude.{ℕ, zero, suc, Bool, true, false, List, [], ◌∷◌, All, ◌≡◌, refl}
use tax_module.Worker.Settings.{PoolConfig}
use tax_module.Domain.Invoice.{Invoice}
use tax_module.Domain.Publisher.{InvoicePublisher, PublisherLaws}
use tax_module.Store.{World, Env}
use tax_module.Worker.Job.{Job}
use tax_module.Concurrency.{Prog, halt, act}
use tax_module.Concurrency.Safety.{Safe}
use tax_module.Concurrency.Calls.{Kept}
use tax_module.Concurrency.Safety.Programs.{job-Safe, poller-Safe, request-Safe}
use tax_module.Concurrency.Programs.{poller_prog, job_prog}
use tax_module.Concurrency.Pool.{
  Goroutine, waiting, running, returned, System, Request, Turn, request_arrives, request_acts,
  worker_acts, worker_stops, poller_acts, poller_stops, shutdown, at_nth, replicate, start, advance,
  stop, request_prog, receive, worker_step, poller_step, step, run,
}

abbrev pub SafeGoroutine : (World → Type 0) → Goroutine → Type 0
SafeGoroutine I waiting = Unit
SafeGoroutine I (running p) = Safe I p
SafeGoroutine I returned = Unit

module _ (I : World → Type 0) where
  -- The property holds, and whatever is at work keeps it.
  pub record Holds (s : System) : Type 0 where
    pub on_world : I s.world
    pub on_workers : All (SafeGoroutine I) s.workers
    pub on_poller : SafeGoroutine I s.poller
    pub on_requests : All (Safe I) s.requests

  at_nth-All :
      {A : Type 0} (P : A → Type 0) (f : World → A → World × A)
      → ((w : World) (a : A) → I w → P a → I (f w a).0 × P (f w a).1)
      → (n : ℕ) (w : World) (as' : List A) → I w
      → All P as'
      → I (at_nth f w n as').0 × All P (at_nth f w n as').1
  at_nth-All P f keeps n w [] h all = (h, all)
  at_nth-All P f keeps zero w (a ∷ rest) h (p, ps) = let (h', p') = keeps w a h p in (h', (p', ps))
  at_nth-All P f keeps (suc n) w (a ∷ rest) h (p, ps) =
      let (h', ps') = at_nth-All P f keeps n w rest h ps in (h', (p, ps'))

  advance-Safe :
      (w : World) (p : Prog) → I w → Safe I p → I (advance w p).0 × Safe I (advance w p).1
  advance-Safe w halt h safe = (h, safe)
  advance-Safe w (act f k) h safe = safe w h

  stop-Safe :
      (cancelled : Bool) (w : World) (g : Goroutine)
      → I w
      → SafeGoroutine I g
      → I (stop cancelled w g).0 × SafeGoroutine I (stop cancelled w g).1
  stop-Safe true w waiting h safe = (h, tt)
  stop-Safe false w waiting h safe = (h, tt)
  stop-Safe _ w (running p) h safe = (h, safe)
  stop-Safe _ w returned h safe = (h, tt)

  replicate-Safe : (n : ℕ) → All (SafeGoroutine I) (replicate n)
  replicate-Safe zero = tt
  replicate-Safe (suc n) = (tt, replicate-Safe n)

  pub start-Holds : (cfg : PoolConfig) (w : World) → I w → Holds (start cfg w)
  start-Holds cfg w h = record {
    on_world = h;
    on_workers = replicate-Safe cfg.pool_size;
    on_poller = tt;
    on_requests = tt;
  }

  module _ (env : Env) (cfg : PoolConfig) (publisher : InvoicePublisher)
      (received : (w : World) (jobs : List Job)
        → I w
        → (job : Job) → w.queue ≡ job ∷ jobs
        → I (record w { queue = jobs }))
      (job_safe : (job : Job) → Safe I (job_prog env cfg publisher job))
      (poller_safe : Safe I (poller_prog env cfg))
      (request_safe : (r : Request) → Safe I (request_prog env cfg publisher r)) where
    receive-Safe :
        (w : World) (q : List Job)
        → w.queue ≡ q
        → I w
        → I (receive env cfg publisher w q).0 × SafeGoroutine I (receive env cfg publisher w q).1
    receive-Safe w [] e h = (h, tt)
    receive-Safe w (job ∷ jobs) e h = (received w jobs h job e, job_safe job)

    worker_step-Safe :
        (w : World) (g : Goroutine)
        → I w
        → SafeGoroutine I g
        → I (worker_step env cfg publisher w g).0
          × SafeGoroutine I (worker_step env cfg publisher w g).1
    unfolding worker_step
    worker_step-Safe w waiting h safe = receive-Safe w w.queue refl h
    worker_step-Safe w (running halt) h safe = (h, tt)
    worker_step-Safe w (running (act f k)) h safe = safe w h
    worker_step-Safe w returned h safe = (h, tt)

    poller_step-Safe :
        (w : World) (g : Goroutine)
        → I w
        → SafeGoroutine I g
        → I (poller_step env cfg publisher w g).0
          × SafeGoroutine I (poller_step env cfg publisher w g).1
    unfolding poller_step
    poller_step-Safe w waiting h safe = (h, poller_safe)
    poller_step-Safe w (running halt) h safe = (h, tt)
    poller_step-Safe w (running (act f k)) h safe = safe w h
    poller_step-Safe w returned h safe = (h, tt)

    step-Holds : (t : Turn) (s : System) → Holds s → Holds (step env cfg publisher t s)
    unfolding step
    step-Holds (request_arrives r) s h = record {
      on_world = h.on_world;
      on_workers = h.on_workers;
      on_poller = h.on_poller;
      on_requests = (request_safe r, h.on_requests);
    }
    step-Holds (request_acts n) s h =
        let (w', all) =
          at_nth-All (Safe I) advance advance-Safe n s.world s.requests h.on_world h.on_requests in
        record {
          on_world = w';
          on_workers = h.on_workers;
          on_poller = h.on_poller;
          on_requests = all;
        }
    step-Holds (worker_acts n) s h =
        let (w', all) =
          at_nth-All (SafeGoroutine I) (worker_step env cfg publisher) worker_step-Safe n s.world
            s.workers h.on_world h.on_workers in
        record {
          on_world = w';
          on_workers = all;
          on_poller = h.on_poller;
          on_requests = h.on_requests;
        }
    step-Holds (worker_stops n) s h =
        let (w', all) =
          at_nth-All (SafeGoroutine I) (stop s.cancelled) (stop-Safe s.cancelled) n s.world
            s.workers h.on_world h.on_workers in
        record {
          on_world = w';
          on_workers = all;
          on_poller = h.on_poller;
          on_requests = h.on_requests;
        }
    step-Holds poller_acts s h =
        let (w', poller) = poller_step-Safe s.world s.poller h.on_world h.on_poller in
        record {
          on_world = w';
          on_workers = h.on_workers;
          on_poller = poller;
          on_requests = h.on_requests;
        }
    step-Holds poller_stops s h =
        let (w', poller) = stop-Safe s.cancelled s.world s.poller h.on_world h.on_poller in
        record {
          on_world = w';
          on_workers = h.on_workers;
          on_poller = poller;
          on_requests = h.on_requests;
        }
    step-Holds shutdown s h = record {
      on_world = h.on_world;
      on_workers = h.on_workers;
      on_poller = h.on_poller;
      on_requests = h.on_requests;
    }

    pub run-Holds : (ts : List Turn) (s : System) → Holds s → Holds (run env cfg publisher ts s)
    unfolding run
    run-Holds [] s h = h
    run-Holds (t ∷ ts) s h = run-Holds ts (step env cfg publisher t s) (step-Holds t s h)

-- From the start of the pool on, what the calls keep holds in every schedule.
pub schedule-Kept :
    {env : Env} {cfg : PoolConfig} {I : World → Type 0} {C : Invoice → Type 0}
    (kept : Kept env cfg I C) (publisher : InvoicePublisher) (laws : PublisherLaws publisher)
    (ts : List Turn) (w : World)
    → I w
    → I (run env cfg publisher ts (start cfg w)).world
schedule-Kept {env} {cfg} {I} kept publisher laws ts w h =
    (run-Holds I env cfg publisher (λ w' jobs h' job e. kept.on_receive w' job jobs e h')
      (job-Safe kept publisher laws) (poller-Safe kept) (request-Safe kept publisher laws) ts
      (start cfg w) (start-Holds I cfg w h)).on_world
