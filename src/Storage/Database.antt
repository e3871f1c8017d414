-- ===== src/Storage/Database.antt =====
-- internal/storage/sqlite.go and the calls of package `database/sql`: a store over the driver. Every
-- call of the driver may fail, as the world decides; the driver is a parameter.
pub mod Atomic
pub mod Frame
pub mod Calls
use pooly_sentinel.Prelude.{
  ℕ, Bool, true, false, Option, none, some, List, Text, text, ◌==◌, if◌then◌else◌,
}
use pooly_sentinel.Effect.{
  Error, sentinel, closed, validation, write, query, class_closed, ErrorClass, Result, ok, err,
  Exec,
}
use pooly_sentinel.Redaction.{Patterns}
use pooly_sentinel.Storage.Errors.{wrap_error, not_found_error}
use pooly_sentinel.Storage.Tables.{Tables}

pub record Driver (W : Type 0) : Type 0 where
  -- Whether the next call fails, a canceled context included.
  pub call : W → Option Error × W
  -- `time.Now().UTC()`.
  pub now : W → ℕ
  -- The error of a violated constraint.
  pub constraint : Error
  -- `err.Error()`.
  pub error_text : Error → Text
  -- `t.UTC().Format(time.RFC3339Nano)`, the text of an instant, by which the tables are ordered, and
  -- `time.Parse` of such a text.
  pub time_text : ℕ → Text
  pub parse_instant : Text → Result ℕ

-- `Store`: `is_open` stands for a database handle that is not nil.
pub record Handle (T W : Type 0) : Type 0 where
  pub is_open : Bool
  pub tables : T
  pub world : W

abbrev pub Db : Type 0 → Type 0
Db = Handle Tables

-- `db.Exec` of a statement, on what the driver's call comes to.
unfoldable pub executed :
    {T W : Type 0}
    → Error
    → (T → Option T)
    → Handle T W
    → Option Error × W
    → Result (Unit {0}) × Handle T W
executed constraint statement s (some e, w) = (err e, record s { world = w })
executed constraint statement s (none, w) = elim (statement s.tables) [
  | none ↦ (err constraint, record s { world = w })
  | some t ↦ (ok tt, record s { tables = t; world = w })
]

-- A query's rows, on what the driver's call comes to.
unfoldable pub queried :
    {T W A : Type 0} → (T → A) → Handle T W → Option Error × W → Result A × Handle T W
queried select s (some e, w) = (err e, record s { world = w })
queried select s (none, w) = (ok (select s.tables), record s { world = w })

-- `defer tx.Rollback()`: what a transaction that was not committed leaves.
unfoldable pub roll_back : {T W : Type 0} → Handle T W → Handle T W → Handle T W
roll_back before after = record after { tables = before.tables }

-- From `result.RowsAffected()` of an update or a deletion on.
unfoldable pub affected :
    {T W : Type 0} → Text → Bool → Result (Unit {0}) × Handle T W → Result (Unit {0}) × Handle T W
affected op any_row (err e, s) = (err e, s)
affected op true (ok u, s) = (ok u, s)
affected op false (ok u, s) = (err (not_found_error op), s)

module _ (p : Patterns) {W : Type 0} (d : Driver W) where
  unfoldable pub wrapped : Text → ErrorClass → Error → Error
  wrapped = wrap_error p d.error_text

  unfoldable pub closed_error : Error
  unfolding wrapped text
  closed_error = wrapped (text "database") class_closed (sentinel closed)

module _ (p : Patterns) {W : Type 0} (d : Driver W) {T : Type 0} where
  -- `if err != nil { return wrapError(op, class, err) }`.
  unfoldable pub or_wrap :
      {A : Type 0} → Text → ErrorClass → Result A × Handle T W → Result A × Handle T W
  unfolding wrapped
  or_wrap op class (ok a, s) = (ok a, s)
  or_wrap op class (err e, s) = (err (wrapped p d op class e), s)

  -- `if err := check; err != nil { return wrapError(op, ErrorClassValidation, err) }`.
  unfoldable pub check_input : Text → Result (Unit {0}) → Exec (Handle T W) (Unit {0})
  unfolding or_wrap
  check_input op checked s = or_wrap op validation (checked, s)

  -- `db, err := s.database(); if err != nil { return err }`, and the rest.
  unfoldable pub opened : {A : Type 0} → Bool → Exec (Handle T W) A → Exec (Handle T W) A
  unfolding closed_error
  opened true rest s = rest s
  opened false rest s = (err (closed_error p d), s)

  unfoldable pub with_database : {A : Type 0} → Exec (Handle T W) A → Exec (Handle T W) A
  unfolding opened
  with_database rest s = opened s.is_open rest s

  unfoldable pub exec : Text → (T → Option T) → Exec (Handle T W) (Unit {0})
  unfolding or_wrap executed
  exec op statement s = or_wrap op write (executed d.constraint statement s (d.call s.world))

  unfoldable pub query_rows : {A : Type 0} → Text → (T → A) → Exec (Handle T W) A
  unfolding or_wrap queried
  query_rows op select s = or_wrap op query (queried select s (d.call s.world))

  -- `classifyQueryErr`, where `sql.ErrNoRows` stands for a row that is missing.
  unfoldable pub scanned :
      {A : Type 0} → Text → Result (Option A) × Handle T W → Result A × Handle T W
  scanned op (err e, s) = (err e, s)
  scanned op (ok none, s) = (err (not_found_error op), s)
  scanned op (ok (some a), s) = (ok a, s)

  -- `QueryRowContext(...).Scan(...)`.
  unfoldable pub query_row : {A : Type 0} → Text → (T → Option A) → Exec (Handle T W) A
  unfolding query_rows scanned
  query_row op select s = scanned op (query_rows op select s)

  -- `tx.Commit()`, for a function that returned `a` and left `after`.
  unfoldable pub committed :
      {A : Type 0}
      → ErrorClass
      → Text
      → A
      → Handle T W
      → Handle T W
      → Option Error × W
      → Result A × Handle T W
  unfolding wrapped roll_back
  committed class op a before after (none, w) = (ok a, record after { world = w })
  committed class op a before after (some e, w) =
      (err (wrapped p d op class e), roll_back before (record after { world = w }))

  -- From the return of the transaction's function on.
  unfoldable pub finished :
      {A : Type 0} → ErrorClass → Text → Handle T W → Result A × Handle T W → Result A × Handle T W
  unfolding committed roll_back
  finished class op before (err e, after) = (err e, roll_back before after)
  finished class op before (ok a, after) = committed class op a before after (d.call after.world)

  -- `db.BeginTx`, and the rest.
  unfoldable pub begun :
      {A : Type 0}
      → ErrorClass
      → Text
      → Text
      → Exec (Handle T W) A
      → Handle T W
      → Option Error × W
      → Result A × Handle T W
  unfolding wrapped finished
  begun class begin_op commit_op fn s (some e, w) =
      (err (wrapped p d begin_op class e), record s { world = w })
  begun class begin_op commit_op fn s (none, w) =
      finished class commit_op s (fn (record s { world = w }))

  unfoldable pub transaction :
      {A : Type 0} → Text → Text → Exec (Handle T W) A → Exec (Handle T W) A
  unfolding with_database begun
  transaction begin_op commit_op fn =
      with_database (λ s. begun write begin_op commit_op fn s (d.call s.world))
