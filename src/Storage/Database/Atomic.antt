-- ===== src/Storage/Database/Atomic.antt =====
-- internal/storage/rule_transaction.go and notification_transaction.go: a transaction that fails leaves
-- the tables as they were.
use pooly_sentinel.Prelude.{◌≡◌, refl, Bool, true, false, Option, none, some, Text}
use pooly_sentinel.Effect.{Error, ErrorClass, write, Result, ok, err, Exec}
use pooly_sentinel.Redaction.{Patterns}
use pooly_sentinel.Storage.Database.{
  Driver, Handle, roll_back, opened, with_database, committed, finished, begun, transaction,
}

-- What a call that fails, or succeeds, leaves of the tables.
pub data Leaves {T W A : Type 0} (before : T) : Result A × Handle T W → Type 0 where
  failed : (e : Error) (s : Handle T W) → s.tables ≡ before → Leaves before (err e, s)
  succeeded : (a : A) (s : Handle T W) → Leaves before (ok a, s)

module _ (p : Patterns) {W : Type 0} (d : Driver W) {T A : Type 0} where
  committed-Leaves :
      (class : ErrorClass) (op : Text) (a : A) (before after : Handle T W) (call : Option Error × W)
      → Leaves before.tables (committed p d class op a before after call)
  unfolding committed roll_back
  committed-Leaves class op a before after (none, w) = succeeded a _
  committed-Leaves class op a before after (some e, w) = failed _ _ refl

  finished-Leaves :
      (class : ErrorClass) (op : Text) (before : Handle T W) (out : Result A × Handle T W)
      → Leaves before.tables (finished p d class op before out)
  unfolding finished roll_back
  finished-Leaves class op before (err e, after) = failed e _ refl
  finished-Leaves class op before (ok a, after) =
      committed-Leaves class op a before after (d.call after.world)

  begun-Leaves :
      (class : ErrorClass) (begin_op commit_op : Text) (fn : Exec (Handle T W) A) (s : Handle T W)
      (call : Option Error × W)
      → Leaves s.tables (begun p d class begin_op commit_op fn s call)
  unfolding begun
  begun-Leaves class begin_op commit_op fn s (some e, w) = failed _ _ refl
  begun-Leaves class begin_op commit_op fn s (none, w) = finished-Leaves class commit_op s (fn _)

  opened-Leaves :
      (is_open : Bool) (rest : Exec (Handle T W) A) (s : Handle T W)
      → ((t : Handle T W) → Leaves t.tables (rest t))
      → Leaves s.tables (opened p d is_open rest s)
  unfolding opened
  opened-Leaves true rest s h = h s
  opened-Leaves false rest s h = failed _ _ refl

  -- Whatever its function does, a transaction that returns an error leaves the tables as it found them.
  pub transaction-Leaves :
      (begin_op commit_op : Text) (fn : Exec (Handle T W) A) (s : Handle T W)
      → Leaves s.tables (transaction p d begin_op commit_op fn s)
  unfolding transaction with_database
  transaction-Leaves begin_op commit_op fn s =
      opened-Leaves s.is_open _ s (λ t. begun-Leaves write begin_op commit_op fn t (d.call t.world))
