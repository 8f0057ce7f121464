-- ===== src/Concurrency/Safety.antt =====
-- What no interleaving breaks (internal/worker/pool.go): a property of the shared state that every call of a goroutine keeps.
pub mod Publishing
pub mod Programs
use tax_module.Prelude.{Bool, true, false, if◌then◌else◌}
use tax_module.Store.{World, M}
use tax_module.Concurrency.{Prog, halt, act}

-- Each action keeps I where it holds, whatever the other goroutines did before it.
abbrev pub Safe : (World → Type 0) → Prog → Type 0
Safe I halt = Unit
Safe I (act f k) = (w : World) → I w → I (f w) × Safe I (k w)

abbrev pub Keeps : {A : Type 0} → (World → Type 0) → M A → Type 0
Keeps I m = (w : World) → I w → I (m w).1

module _ (I : World → Type 0) where
  pub if-Safe : (b : Bool) (p q : Prog) → Safe I p → Safe I q → Safe I (if b then p else q)
  if-Safe true p q left right = left
  if-Safe false p q left right = right
