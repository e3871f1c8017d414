-- ===== src/Storage/Database/Calls.antt =====
-- internal/storage/sqlite.go: what a call of a store that succeeds has done.
use pooly_sentinel.Prelude.{◌≡◌, refl, ap, ◌∙◌, Bool, true, false, Option, none, some, Text, arith}
use pooly_sentinel.Effect.{Error, ErrorClass, Result, ok, err, query, Exec, ◌>>◌, bind-eq_ok}
use pooly_sentinel.Redaction.{Patterns}
use pooly_sentinel.Storage.Database.{
  Driver, Handle, executed, queried, or_wrap, check_input, opened, with_database, exec, query_rows,
  scanned, query_row,
}

module _ (p : Patterns) {W : Type 0} (d : Driver W) {T : Type 0} where
  pub or_wrap_ok :
      {A : Type 0} (op : Text) (class : ErrorClass) (out : Result A × Handle T W) (a : A)
      (s : Handle T W)
      → or_wrap p d op class out ≡ (ok a, s)
      → out ≡ (ok a, s)
  unfolding or_wrap
  or_wrap_ok op class (ok b, t) a s h = h
  or_wrap_ok op class (err e, t) a s h = cc

  pub executed_ok :
      (statement : T → Option T) (s : Handle T W) (call : Option Error × W) (s' : Handle T W)
      → executed d.constraint statement s call ≡ (ok tt, s')
      → (statement s.tables ≡ some s'.tables) × (s'.is_open ≡ s.is_open)
  unfolding executed
  executed_ok statement s (some e, w) s' h = cc
  executed_ok statement s (none, w) s' h = ground arith

  pub exec_ok :
      (op : Text) (statement : T → Option T) (s s' : Handle T W)
      → exec p d op statement s ≡ (ok tt, s')
      → (statement s.tables ≡ some s'.tables) × (s'.is_open ≡ s.is_open)
  unfolding exec
  exec_ok op statement s s' h =
      executed_ok statement s (d.call s.world) s' (or_wrap_ok op _ _ tt s' h)

  opened_ok :
      {A : Type 0} (is_open : Bool) (rest : Exec (Handle T W) A) (s s' : Handle T W) (a : A)
      → opened p d is_open rest s ≡ (ok a, s')
      → (is_open ≡ true) × (rest s ≡ (ok a, s'))
  unfolding opened
  opened_ok true rest s s' a h = (refl, h)
  opened_ok false rest s s' a h = cc

  pub with_database_ok :
      {A : Type 0} (rest : Exec (Handle T W) A) (s s' : Handle T W) (a : A)
      → with_database p d rest s ≡ (ok a, s')
      → (s.is_open ≡ true) × (rest s ≡ (ok a, s'))
  unfolding with_database
  with_database_ok rest s s' a = opened_ok s.is_open rest s s' a

  -- A call that checked its input first found it good, and went on.
  pub checked_ok :
      {A : Type 0} (op : Text) (checked : Result (Unit {0})) (rest : Exec (Handle T W) A)
      (s s' : Handle T W) (a : A)
      → (check_input p d op checked >> rest) s ≡ (ok a, s')
      → (checked ≡ ok tt) × (rest s ≡ (ok a, s'))
  unfolding check_input or_wrap
  checked_ok op (ok u) rest s s' a h = (refl, h)
  checked_ok op (err e) rest s s' a h = cc

  -- The other way round: an open store, a driver whose call does not fail and a row that is there.
  pub query_row_found :
      {A : Type 0} (op : Text) (select : T → Option A) (s : Handle T W) (a : A)
      → (d.call s.world).0 ≡ none
      → select s.tables ≡ some a
      → (query_row p d op select s).0 ≡ ok a
  unfolding query_row query_rows or_wrap queried scanned
  query_row_found op select s a h k = go (d.call s.world) h
    where
      go :
          (call : Option Error × W)
          → call.0 ≡ none
          → (scanned p d op (or_wrap p d op query (queried select s call))).0 ≡ ok a
      go (none, w) e = rw k refl
      go (some x, w) e = cc

  opened_found :
      {A : Type 0} (is_open : Bool) (rest : Exec (Handle T W) A) (s : Handle T W) (a : A)
      → is_open ≡ true
      → (rest s).0 ≡ ok a
      → (opened p d is_open rest s).0 ≡ ok a
  unfolding opened
  opened_found true rest s a e found = found
  opened_found false rest s a e found = cc

  pub with_database_found :
      {A : Type 0} (rest : Exec (Handle T W) A) (s : Handle T W) (a : A)
      → s.is_open ≡ true
      → (rest s).0 ≡ ok a
      → (with_database p d rest s).0 ≡ ok a
  unfolding with_database
  with_database_found rest s a = opened_found s.is_open rest s a

  pub check_input_passes :
      (op : Text) (checked : Result (Unit {0})) (s : Handle T W)
      → checked ≡ ok tt
      → check_input p d op checked s ≡ (ok tt, s)
  unfolding check_input or_wrap
  check_input_passes op (ok u) s good = refl
  check_input_passes op (err e) s good = cc

  pub checked_found :
      {A : Type 0} (op : Text) (checked : Result (Unit {0})) (rest : Exec (Handle T W) A)
      (s : Handle T W) (a : A)
      → checked ≡ ok tt
      → s.is_open ≡ true
      → (rest s).0 ≡ ok a
      → ((check_input p d op checked >> with_database p d rest) s).0 ≡ ok a
  checked_found op checked rest s a good unlocked found =
      ap (λ out. out.0)
        (bind-eq_ok (check_input p d op checked) (λ _. with_database p d rest)
          (check_input_passes op checked s good))
      ∙ with_database_found rest s a unlocked found

  queried_ok :
      {A : Type 0} (select : T → A) (s s' : Handle T W) (a : A) (call : Option Error × W)
      → queried select s call ≡ (ok a, s')
      → select s.tables ≡ a
  unfolding queried
  queried_ok select s s' a (some e, w) h = cc
  queried_ok select s s' a (none, w) h = cc

  pub query_rows_ok :
      {A : Type 0} (op : Text) (select : T → A) (s s' : Handle T W) (a : A)
      → query_rows p d op select s ≡ (ok a, s')
      → select s.tables ≡ a
  unfolding query_rows
  query_rows_ok op select s s' a h =
      queried_ok select s s' a (d.call s.world) (or_wrap_ok op _ _ a s' h)
