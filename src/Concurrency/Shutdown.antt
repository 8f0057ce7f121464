-- ===== src/Concurrency/Shutdown.antt =====
-- The end of the pool (`Shutdown`, internal/worker/pool.go): once the context is cancelled, every
-- goroutine of the pool can finish its job and return, and then `wg.Wait` returns.
use tax_module.Prelude.{
  zero, false, suc, Bool, true, false, ◌&&◌, List, [], ◌∷◌, ◌++◌, map, ◌≡◌, refl, ap, ◌∙◌, ℕ, subst,
  sym,
}
use tax_module.Worker.Settings.{PoolConfig}
use tax_module.Domain.Publisher.{InvoicePublisher}
use tax_module.Store.{World, Env}
use tax_module.Concurrency.{Prog, halt, act}
use tax_module.Concurrency.Pool.{
  Goroutine, waiting, running, returned, System, Turn, request_arrives, request_acts, worker_acts,
  worker_stops, poller_acts, poller_stops, shutdown, worker_step, poller_step, step, run, at_nth,
  stop,
}

abbrev pub has_returned : Goroutine → Bool
has_returned returned = true
has_returned _ = false

abbrev pub all_returned : List Goroutine → Bool
all_returned [] = true
all_returned (g ∷ gs) = has_returned g && all_returned gs

-- `p.wg.Wait()` returns: the counter of the goroutines is 0.
abbrev pub wait_returns : System → Bool
wait_returns s = all_returned s.workers && has_returned s.poller

abbrev cancelled_with : World → List Goroutine → Goroutine → List Prog → System
cancelled_with w workers poller requests = record {
  world = w;
  workers = workers;
  poller = poller;
  requests = requests;
  cancelled = true;
}

-- The same turn where one more worker stands first.
abbrev shift : Turn → Turn
shift (worker_acts n) = worker_acts (suc n)
shift (worker_stops n) = worker_stops (suc n)
shift t = t

module _ (env : Env) (cfg : PoolConfig) (publisher : InvoicePublisher) where
  abbrev pub after : List Turn → System → System
  after ts s = run env cfg publisher ts s

  pub run-append : (xs ys : List Turn) (s : System) → after (xs ++ ys) s ≡ after ys (after xs s)
  unfolding run
  run-append [] ys s = refl
  run-append (x ∷ xs) ys s = run-append xs ys (step env cfg publisher x s)

  drain_poller :
      (p : Prog) (w : World) (ws : List Goroutine) (rs : List Prog)
      → (ts : List Turn) × (w' : World) × (after ts (cancelled_with w ws (running p) rs)
          ≡ cancelled_with w' ws returned rs)
  unfolding run step poller_step
  drain_poller halt w ws rs = (poller_acts ∷ poller_stops ∷ [], w, refl)
  drain_poller (act f k) w ws rs =
      let (ts, w', e) = drain_poller (k w) (f w) ws rs in (poller_acts ∷ ts, w', e)

  end_poller :
      (g : Goroutine) (w : World) (ws : List Goroutine) (rs : List Prog)
      → (ts : List Turn) × (w' : World) × (after ts (cancelled_with w ws g rs)
          ≡ cancelled_with w' ws returned rs)
  unfolding run step
  end_poller waiting w ws rs = (poller_stops ∷ [], w, refl)
  end_poller (running p) w ws rs = drain_poller p w ws rs
  end_poller returned w ws rs = ([], w, refl)

  drain_worker :
      (p : Prog) (w : World) (ws : List Goroutine) (g : Goroutine) (rs : List Prog)
      → (ts : List Turn) × (w' : World) × (after ts (cancelled_with w (running p ∷ ws) g rs)
          ≡ cancelled_with w' (returned ∷ ws) g rs)
  unfolding run step worker_step
  drain_worker halt w ws g rs = (worker_acts 0 ∷ worker_stops 0 ∷ [], w, refl)
  drain_worker (act f k) w ws g rs =
      let (ts, w', e) = drain_worker (k w) (f w) ws g rs in (worker_acts 0 ∷ ts, w', e)

  end_worker :
      (v : Goroutine) (w : World) (ws : List Goroutine) (g : Goroutine) (rs : List Prog)
      → (ts : List Turn) × (w' : World) × (after ts (cancelled_with w (v ∷ ws) g rs)
          ≡ cancelled_with w' (returned ∷ ws) g rs)
  unfolding run step
  end_worker waiting w ws g rs = (worker_stops 0 ∷ [], w, refl)
  end_worker (running p) w ws g rs = drain_worker p w ws g rs
  end_worker returned w ws g rs = ([], w, refl)

  -- One more worker in front.
  abbrev cons : Goroutine → System → System
  cons v s = record s { workers = v ∷ s.workers }

  step-shift :
      (t : Turn) (v : Goroutine) (s : System)
      → step env cfg publisher (shift t) (cons v s) ≡ cons v (step env cfg publisher t s)
  unfolding step
  step-shift (request_arrives r) v s = refl
  step-shift (request_acts n) v s = refl
  step-shift (worker_acts n) v s = refl
  step-shift (worker_stops n) v s = refl
  step-shift poller_acts v s = refl
  step-shift poller_stops v s = refl
  step-shift shutdown v s = refl

  run-shift :
      (ts : List Turn) (v : Goroutine) (s : System)
      → after (map shift ts) (cons v s) ≡ cons v (after ts s)
  unfolding run
  run-shift [] v s = refl
  run-shift (t ∷ ts) v s =
      ap (after (map shift ts)) (step-shift t v s) ∙ run-shift ts v (step env cfg publisher t s)

  end_workers :
      (ws : List Goroutine) (w : World) (g : Goroutine) (rs : List Prog)
      → (ts : List Turn) × (w' : World) × (ws' : List Goroutine) × (all_returned ws' ≡ true)
        × (after ts (cancelled_with w ws g rs) ≡ cancelled_with w' ws' g rs)
  unfolding run
  end_workers [] w g rs = ([], w, [], refl, refl)
  end_workers (v ∷ ws) w g rs =
      let (ts₁, w₁, e₁) = end_worker v w ws g rs in
      let (ts₂, w₂, ws', all, e₂) = end_workers ws w₁ g rs in
      (
        ts₁ ++ map shift ts₂,
        w₂,
        returned ∷ ws',
        all,
        run-append ts₁ (map shift ts₂) _
            ∙ (ap (after (map shift ts₂)) e₁
                ∙ (run-shift ts₂ returned (cancelled_with w₁ ws g rs) ∙ ap (cons returned) e₂)),
      )

  nth-returned :
      (f : World → Goroutine → World × Goroutine)
      → ((w : World) → (f w returned).1 ≡ returned)
      → (n : ℕ) (w : World) (ws : List Goroutine) → all_returned ws ≡ true
      → all_returned (at_nth f w n ws).1 ≡ true
  nth-returned f over n w [] h = refl
  nth-returned f over zero w (returned ∷ ws) h = rw (over w) h
  nth-returned f over (suc n) w (returned ∷ ws) h = nth-returned f over n w ws h
  nth-returned f over n w (waiting ∷ ws) h = cc
  nth-returned f over n w (running p ∷ ws) h = cc

  both : (a b : Bool) → a && b ≡ true → (a ≡ true) × (b ≡ true)
  both true true h = (refl, refl)
  both true false h = cc
  both false b h = cc

  poller_returned :
      (w : World) (g : Goroutine)
      → has_returned g ≡ true
      → has_returned (poller_step env cfg publisher w g).1 ≡ true
  unfolding poller_step
  poller_returned w returned h = refl
  poller_returned w waiting h = cc
  poller_returned w (running p) h = cc

  stop_returned :
      (c : Bool) (w : World) (g : Goroutine)
      → has_returned g ≡ true
      → has_returned (stop c w g).1 ≡ true
  stop_returned c w returned h = refl
  stop_returned c w waiting h = cc
  stop_returned c w (running p) h = cc

  step-stays :
      (t : Turn) (s : System)
      → wait_returns s ≡ true
      → wait_returns (step env cfg publisher t s) ≡ true
  unfolding step worker_step poller_step
  step-stays (request_arrives r) s h = h
  step-stays (request_acts n) s h = h
  step-stays (worker_acts n) s h =
      let (ws, p) = both (all_returned s.workers) (has_returned s.poller) h in
      rw (nth-returned (worker_step env cfg publisher) (λ w. refl) n s.world s.workers ws) p
  step-stays (worker_stops n) s h =
      let (ws, p) = both (all_returned s.workers) (has_returned s.poller) h in
      rw (nth-returned (stop s.cancelled) (λ w. refl) n s.world s.workers ws) p
  step-stays poller_acts s h =
      let (ws, p) = both (all_returned s.workers) (has_returned s.poller) h in
      rw ws (poller_returned s.world s.poller p)
  step-stays poller_stops s h =
      let (ws, p) = both (all_returned s.workers) (has_returned s.poller) h in
      rw ws (stop_returned s.cancelled s.world s.poller p)
  step-stays shutdown s h = h

  stays : (ts : List Turn) (s : System) → wait_returns s ≡ true → wait_returns (after ts s) ≡ true
  unfolding run
  stays [] s h = h
  stays (t ∷ ts) s h = stays ts (step env cfg publisher t s) (step-stays t s h)

  drains : (s : System) → s.cancelled ≡ true → (ts : List Turn) × (wait_returns (after ts s) ≡ true)
  drains s cancelled =
      let (ts₁, w₁, ws, all, e₁) = end_workers s.workers s.world s.poller s.requests in
      let (ts₂, w₂, e₂) = end_poller s.poller w₁ ws s.requests in
      (
        ts₁ ++ ts₂,
        subst (λ v. wait_returns (after (ts₁ ++ ts₂) v) ≡ true)
            (sym (ap (λ c. record s { cancelled = c }) cancelled))
            (ap wait_returns (run-append ts₁ ts₂ _ ∙ (ap (after ts₂) e₁ ∙ e₂)) ∙ rw all refl),
      )

  -- From every state of the pool, `Shutdown` can be followed by a schedule that lets every worker and the
  -- poller finish and return, so that its wait ends; and however the schedule goes on, no goroutine
  -- of the pool comes back.
  pub shutdown_lem :
      (s : System)
      → let s' = step env cfg publisher shutdown s in
        (ts : List Turn) × (wait_returns (run env cfg publisher ts s') ≡ true)
        × ((more : List Turn)
            → wait_returns (run env cfg publisher more (run env cfg publisher ts s')) ≡ true)
  unfolding step
  shutdown_lem s =
      let s' = step env cfg publisher shutdown s in
      let (ts, done) = drains s' refl in (ts, done, λ more. stays more (after ts s') done)
