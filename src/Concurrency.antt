-- ===== src/Concurrency.antt =====
-- The goroutines of the program, which interleave between the calls of the repository, of the queue and
-- of the publisher (internal/worker/pool.go and the handlers of the HTTP server).
pub mod Publishing
pub mod Programs
pub mod Safety
pub mod Pool
pub mod Alone
pub mod Invariant
pub mod Intact
pub mod Integrity
pub mod Statuses
pub mod Drafts
pub mod Shutdown
pub mod Calls
use tax_module.Store.{World, M}

-- What a goroutine still does: an action on the shared state, then what follows from the state
-- that the action met.
pub data Prog : Type 0 where
  halt : Prog
  act : (World → World) → (World → Prog) → Prog

-- A call, then what follows from its result.
abbrev pub atom : {A : Type 0} → M A → (A → Prog) → Prog
atom m k = act (λ w. (m w).1) (λ w. k (m w).0)

abbrev pub last : {A : Type 0} → M A → Prog
last m = atom m (λ _. halt)

-- The program with no other goroutine beside it.
abbrev pub run_alone : Prog → World → World
run_alone halt w = w
run_alone (act f k) w = run_alone (k w) (f w)
