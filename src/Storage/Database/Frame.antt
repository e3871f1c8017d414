-- ===== src/Storage/Database/Frame.antt =====
-- internal/storage/sqlite.go: a property of the tables that each statement keeps is kept by the calls
-- of a store and by its transactions.
use pooly_sentinel.Prelude.{◌≡◌, refl, Bool, true, false, Option, none, some, Text}
use pooly_sentinel.Effect.{Error, ErrorClass, write, Result, ok, err, Exec}
use pooly_sentinel.Effect.Keeps.{Keeps}
use pooly_sentinel.Redaction.{Patterns}
use pooly_sentinel.Storage.Database.{
  Driver, Handle, executed, queried, roll_back, affected, or_wrap, check_input, opened,
  with_database, exec, query_rows, scanned, query_row, committed, finished, begun, transaction,
}

module _ (p : Patterns) {W : Type 0} (d : Driver W) {U : Type 0} (T : U → Type 0) where
  abbrev pub On : Handle U W → Type 0
  On s = T s.tables

  -- A statement that runs keeps it.
  abbrev pub StatementKeeps : (U → Option U) → Type 0
  StatementKeeps statement = (t t' : U) → T t → statement t ≡ some t' → T t'

  pub or_wrap_lem :
      {A : Type 0} (op : Text) (class : ErrorClass) (out : Result A × Handle U W)
      → On out.1
      → On (or_wrap p d op class out).1
  unfolding or_wrap
  or_wrap_lem op class (ok a, s) h = h
  or_wrap_lem op class (err e, s) h = h

  pub executed-On :
      (statement : U → Option U) (s : Handle U W) (call : Option Error × W)
      → StatementKeeps statement
      → On s
      → On (executed d.constraint statement s call).1
  unfolding executed
  executed-On statement s (some e, w) k h = h
  executed-On statement s (none, w) k h = at (statement s.tables) refl
    where
      at :
          (out : Option U)
          → statement s.tables ≡ out
          → On
              (elim out as (λ _. Result (Unit {0}) × Handle U W) [
                | none ↦ (err d.constraint, record s { world = w })
                | some t ↦ (ok tt, record s { tables = t; world = w })
              ]).1
      at none e = h
      at (some t) e = k s.tables t h e

  pub exec-Keeps :
      (op : Text) (statement : U → Option U)
      → StatementKeeps statement
      → Keeps On (exec p d op statement)
  unfolding exec
  exec-Keeps op statement k s h =
      or_wrap_lem op _ (executed d.constraint statement s (d.call s.world))
        (executed-On statement s (d.call s.world) k h)

  pub affected-On :
      (op : Text) (any_row : Bool) (out : Result (Unit {0}) × Handle U W)
      → On out.1
      → On (affected op any_row out).1
  unfolding affected
  affected-On op any_row (err e, s) h = h
  affected-On op true (ok u, s) h = h
  affected-On op false (ok u, s) h = h

  queried-On :
      {A : Type 0} (select : U → A) (s : Handle U W) (call : Option Error × W)
      → On s
      → On (queried select s call).1
  unfolding queried
  queried-On select s (some e, w) h = h
  queried-On select s (none, w) h = h

  pub query_rows-Keeps :
      {A : Type 0} (op : Text) (select : U → A) → Keeps On (query_rows p d op select)
  unfolding query_rows
  query_rows-Keeps op select s h =
      or_wrap_lem op _ (queried select s (d.call s.world)) (queried-On select s (d.call s.world) h)

  scanned-On :
      {A : Type 0} (op : Text) (out : Result (Option A) × Handle U W)
      → On out.1
      → On (scanned p d op out).1
  unfolding scanned
  scanned-On op (err e, s) h = h
  scanned-On op (ok none, s) h = h
  scanned-On op (ok (some a), s) h = h

  pub query_row-Keeps :
      {A : Type 0} (op : Text) (select : U → Option A) → Keeps On (query_row p d op select)
  unfolding query_row
  query_row-Keeps op select s h =
      scanned-On op (query_rows p d op select s) (query_rows-Keeps op select s h)

  pub check_input-Keeps :
      (op : Text) (checked : Result (Unit {0})) → Keeps On (check_input p d op checked)
  unfolding check_input
  check_input-Keeps op checked s h = or_wrap_lem op _ (checked, s) h

  pub with_database-Keeps :
      {A : Type 0} (rest : Exec (Handle U W) A) → Keeps On rest → Keeps On (with_database p d rest)
  unfolding with_database opened
  with_database-Keeps rest k s h = go s.is_open
    where
      go : (b : Bool) → On (opened p d b rest s).1
      go true = k s h
      go false = h

  committed-On :
      {A : Type 0} (class : ErrorClass) (op : Text) (a : A) (before after : Handle U W)
      (call : Option Error × W)
      → On before
      → On after
      → On (committed p d class op a before after call).1
  unfolding committed roll_back
  committed-On class op a before after (none, w) h k = k
  committed-On class op a before after (some e, w) h k = h

  finished-On :
      {A : Type 0} (class : ErrorClass) (op : Text) (before : Handle U W)
      (out : Result A × Handle U W)
      → On before
      → On out.1
      → On (finished p d class op before out).1
  unfolding finished roll_back
  finished-On class op before (err e, after) h k = h
  finished-On class op before (ok a, after) h k =
      committed-On class op a before after (d.call after.world) h k

  begun-On :
      {A : Type 0} (class : ErrorClass) (begin_op commit_op : Text) (fn : Exec (Handle U W) A)
      (s : Handle U W) (call : Option Error × W)
      → Keeps On fn
      → On s
      → On (begun p d class begin_op commit_op fn s call).1
  unfolding begun
  begun-On class begin_op commit_op fn s (some e, w) k h = h
  begun-On class begin_op commit_op fn s (none, w) k h =
      finished-On class commit_op s (fn _) h (k _ h)

  pub transaction-Keeps :
      {A : Type 0} (begin_op commit_op : Text) (fn : Exec (Handle U W) A)
      → Keeps On fn
      → Keeps On (transaction p d begin_op commit_op fn)
  unfolding transaction
  transaction-Keeps begin_op commit_op fn k =
      with_database-Keeps _ (λ s h. begun-On write begin_op commit_op fn s (d.call s.world) k h)
