-- ===== src/Concurrency/Pool.antt =====
-- The worker pool at work (`Pool`, `Start`, `Shutdown`, `worker` and `poller` of
-- internal/worker/pool.go) beside the requests to the API. A schedule lists who acts next.
use tax_module.Prelude.{ℕ, zero, suc, Bool, true, false, String, List, [], ◌∷◌, if◌then◌else◌}
use tax_module.Worker.Settings.{PoolConfig}
use tax_module.Domain.Invoice.{Invoice, Uuid}
use tax_module.Domain.Publisher.{InvoicePublisher}
use tax_module.Store.{World, Env}
use tax_module.Worker.Job.{Job}
use tax_module.Concurrency.{Prog, halt, act}
use tax_module.Concurrency.Programs.{
  creation_prog, payment_prog, submission_prog, poller_prog, job_prog,
}

-- A goroutine of the pool: in its `select`, at work, or returned.
pub data Goroutine : Type 0 where
  waiting : Goroutine
  running : Prog → Goroutine
  returned : Goroutine

pub record System : Type 0 where
  pub world : World
  pub workers : List Goroutine
  pub poller : Goroutine
  pub requests : List Prog
  pub cancelled : Bool

-- A request to the API that writes.
pub data Request : Type 0 where
  create : Invoice → Request
  pay : Uuid → String → Request
  submit : Uuid → Request

-- Who acts next: a request arrives, a request, a worker or the poller makes its next call or
-- receives, a worker or the poller takes the case of the cancelled context, or `Shutdown` cancels.
pub data Turn : Type 0 where
  request_arrives : Request → Turn
  request_acts : ℕ → Turn
  worker_acts : ℕ → Turn
  worker_stops : ℕ → Turn
  poller_acts : Turn
  poller_stops : Turn
  shutdown : Turn

abbrev pub at_nth : {A : Type 0} → (World → A → World × A) → World → ℕ → List A → World × List A
at_nth f w _ [] = (w, [])
at_nth f w zero (a ∷ rest) = let (w', a') = f w a in (w', a' ∷ rest)
at_nth f w (suc n) (a ∷ rest) = let (w', rest') = at_nth f w n rest in (w', a ∷ rest')

abbrev pub replicate : ℕ → List Goroutine
replicate zero = []
replicate (suc n) = waiting ∷ replicate n

-- `Start` with this state.
abbrev pub start : PoolConfig → World → System
start cfg w = record {
  world = w;
  workers = replicate cfg.pool_size;
  poller = waiting;
  requests = [];
  cancelled = false;
}

abbrev pub advance : World → Prog → World × Prog
advance w halt = (w, halt)
advance w (act f k) = (f w, k w)

-- The case `<-ctx.Done()`.
abbrev pub stop : Bool → World → Goroutine → World × Goroutine
stop cancelled w waiting = (w, if cancelled then returned else waiting)
stop cancelled w (running p) = (w, running p)
stop cancelled w returned = (w, returned)

module _ (env : Env) (cfg : PoolConfig) (publisher : InvoicePublisher) where
  abbrev pub request_prog : Request → Prog
  request_prog (create invoice) = creation_prog env invoice
  request_prog (pay id hash) = payment_prog env id hash
  request_prog (submit id) = submission_prog env cfg id

  -- The loop of `worker`: the case of a job, the next call of `processJob`, and its end.
  abbrev pub receive : World → List Job → World × Goroutine
  receive w [] = (w, waiting)
  receive w (job ∷ jobs) = (record w { queue = jobs }, running (job_prog env cfg publisher job))

  unfoldable pub worker_step : World → Goroutine → World × Goroutine
  worker_step w waiting = receive w w.queue
  worker_step w (running halt) = (w, waiting)
  worker_step w (running (act f k)) = (f w, running (k w))
  worker_step w returned = (w, returned)

  -- The loop of `poller`: the case of the ticker, the next call, and the end of a round.
  unfoldable pub poller_step : World → Goroutine → World × Goroutine
  poller_step w waiting = (w, running (poller_prog env cfg))
  poller_step w (running halt) = (w, waiting)
  poller_step w (running (act f k)) = (f w, running (k w))
  poller_step w returned = (w, returned)

  unfoldable pub step : Turn → System → System
  step (request_arrives r) s = record s { requests = request_prog r ∷ s.requests }
  step (request_acts n) s =
      let (w, requests) = at_nth advance s.world n s.requests in
      record s { world = w; requests = requests }
  step (worker_acts n) s =
      let (w, workers) = at_nth worker_step s.world n s.workers in
      record s { world = w; workers = workers }
  step (worker_stops n) s =
      let (w, workers) = at_nth (stop s.cancelled) s.world n s.workers in
      record s { world = w; workers = workers }
  step poller_acts s =
      let (w, poller) = poller_step s.world s.poller in record s { world = w; poller = poller }
  step poller_stops s =
      let (w, poller) = stop s.cancelled s.world s.poller in record s { world = w; poller = poller }
  step shutdown s = record s { cancelled = true }

  unfoldable pub run : List Turn → System → System
  run [] s = s
  run (t ∷ ts) s = run ts (step t s)
