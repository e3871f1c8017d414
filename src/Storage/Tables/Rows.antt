-- ===== src/Storage/Tables/Rows.antt =====
-- Lookups after writes, for rows of any type.
use pooly_sentinel.Prelude.{◌≡◌, Bool, true, false, some, List, [], ◌∷◌, arith}
use pooly_sentinel.Storage.Tables.{find_row, put_row}

module _ {A : Type 0} (test : A → Bool) (row : A) where
  pub find_row-put_row_self :
      (rows : List A) → test row ≡ true → find_row test (put_row test row rows) ≡ some row
  unfolding find_row put_row
  find_row-put_row_self [] h = ground arith
  find_row-put_row_self (r ∷ rs) h = ground (arith, find_row-put_row_self rs)

  -- A row that the write does not concern is found as before.
  pub find_row-put_row_other :
      (other : A → Bool) (rows : List A)
      → other row ≡ false
      → ((r : A) → test r ≡ true → other r ≡ false)
      → find_row other (put_row test row rows) ≡ find_row other rows
  unfolding find_row put_row
  find_row-put_row_other other [] h k = ground arith
  find_row-put_row_other other (r ∷ rs) h k =
      ground (arith, k r, find_row-put_row_other other rs h k)
