-- ===== src/Store.antt =====
-- What the program shares and what it asks of outside: the tables of the database, the job queue
-- and the requests sent, and the parameters for the database server, the clock and the uuids.
-- An action takes the world to a value and the world after it; a Go `error` result is a value.
use tax_module.Prelude.{ℕ, ◌+◌, String, Option, none, some, List, take}
use tax_module.Domain.Invoice.{
  Invoice, InvoiceItem, InvoiceStatusHistory, AuditLog, Time, Uuid, Float64,
}
use tax_module.Domain.Token.{AccessToken}
use tax_module.Domain.Errors.{Error, plain}
use tax_module.Worker.Job.{Job}

pub data Result (A : Type 0) : Type 0 where
  ok : A → Result A
  err : Error → Result A

-- The tables that the migrations create, rows in insertion order. A row of `invoices` has no items.
pub record Database : Type 0 where
  pub invoices : List Invoice
  pub invoice_items : List InvoiceItem
  pub invoice_status_history : List InvoiceStatusHistory
  pub access_tokens : List AccessToken
  pub audit_logs : List AuditLog

-- A request handed to `http.Client.Do`; `cookie` is the access token that it carries.
pub record HttpRequest : Type 0 where
  pub method : String
  pub url : String
  pub content_type : String
  pub cookie : Option String
  pub body : Option String

-- `tick` counts the questions asked of outside, `queue` is the channel of the worker pool (its
-- head is received next) and `sent` lists the HTTP requests, the latest first.
pub record World : Type 0 where
  pub db : Database
  pub tick : ℕ
  pub queue : List Job
  pub sent : List HttpRequest

-- The answers from outside, by the tick at which they are asked for: whether the database server
-- refuses a statement, where the stream of rows breaks off, the time and the new uuids; and the
-- server's orders of rows, `table_order` where the statement asks for none; and how the server stores
-- a value in a column: `numeric` rounds to a number of digits after the point, `timestamp` to
-- microseconds.
pub record Env : Type 0 where
  pub db_error : ℕ → Option String
  pub row_break : ℕ → Option ℕ
  pub now : ℕ → Time
  pub new_uuid : ℕ → Uuid
  pub uuid_string : Uuid → String
  pub numeric : ℕ → Float64 → Float64
  pub timestamp : Time → Time
  pub table_order : List Invoice → List Invoice
  pub order_by_updated_at : List Invoice → List Invoice
  pub order_by_created_at_desc : List Invoice → List Invoice
  pub order_by_line_number : List InvoiceItem → List InvoiceItem
  pub order_by_created_at : List InvoiceStatusHistory → List InvoiceStatusHistory

abbrev pub M : Type 0 → Type 0
M A = World → A × World

abbrev pub pure : {A : Type 0} → A → M A
pure a w = (a, w)

infixl 5 ◌>>=◌ ◌>>◌
abbrev pub ◌>>=◌ : {A B : Type 0} → M A → (A → M B) → M B
◌>>=◌ m f w = let (a, w') = m w in f a w'

abbrev pub ◌>>◌ : {A B : Type 0} → M A → M B → M B
m >> k = m >>= λ _. k

abbrev tock : World → World
tock w = record w { tick = w.tick + 1 }

module _ (env : Env) where
  -- `time.Now()`
  unfoldable pub time_now : M Time
  time_now w = (env.now w.tick, tock w)

  -- `uuid.New()`
  unfoldable pub uuid_new : M Uuid
  uuid_new w = (env.new_uuid w.tick, tock w)

  -- A statement that the server executes whole or refuses; the value is the rows affected.
  unfoldable pub exec : (Database → Database × ℕ) → M (Result ℕ)
  exec statement w = elim (env.db_error w.tick) [
    | some e ↦ (err (plain e), tock w)
    | none ↦ let (db', n) = statement w.db in (ok n, record w { db = db'; tick = w.tick + 1 })
  ]

  -- A query for rows. The stream can break off early, and then `rows.Next` is false as at the end.
  unfoldable pub query : {A : Type 0} → (Database → List A) → M (Result (List A))
  query select w = elim (env.db_error w.tick) [
    | some e ↦ (err (plain e), tock w)
    | none ↦ elim (env.row_break w.tick) [
      | none ↦ (ok (select w.db), tock w)
      | some k ↦ (ok (take k (select w.db)), tock w)
    ]
  ]

  -- `QueryRow` and `Scan`: the first row, `none` for `pgx.ErrNoRows`.
  unfoldable pub query_row : {A : Type 0} → (Database → Option A) → M (Result (Option A))
  query_row select w = elim (env.db_error w.tick) [
    | some e ↦ (err (plain e), tock w)
    | none ↦ (ok (select w.db), tock w)
  ]
