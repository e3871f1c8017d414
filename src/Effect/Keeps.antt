-- ===== src/Effect/Keeps.antt =====
-- Operations that keep an invariant of the state, and the rules that build them.
use pooly_sentinel.Prelude.{Bool, true, false, Option, none, some, if◌then◌else◌}
use pooly_sentinel.Effect.{
  Error, Result, ok, err, Exec, Context, continue, ◌>>=◌, ◌>>◌, stop_if_canceled, check_context,
}

module _ {S : Type 0} (P : S → Type 0) where
  abbrev pub Keeps : {A : Type 0} → Exec S A → Type 0
  Keeps m = (s : S) → P s → P (m s).1

  -- A poll of the context keeps it.
  abbrev pub KeepsPoll : Context S → Type 0
  KeepsPoll ctx = (s : S) → P s → P (ctx.poll s).1

  pub continue-Keeps :
      {A B : Type 0} (r : Result A) (f : A → Exec S B)
      → ((a : A) → Keeps (f a))
      → Keeps (continue r f)
  continue-Keeps (ok a) f h s p = h a s p
  continue-Keeps (err e) f h s p = p

  pub bind-Keeps :
      {A B : Type 0} (m : Exec S A) (f : A → Exec S B)
      → Keeps m
      → ((a : A) → Keeps (f a))
      → Keeps (m >>= f)
  bind-Keeps m f h k s p = continue-Keeps (m s).0 f k (m s).1 (h s p)

  pub then-Keeps : {A B : Type 0} (m : Exec S A) (n : Exec S B) → Keeps m → Keeps n → Keeps (m >> n)
  then-Keeps m n h k = bind-Keeps m (λ _. n) h (λ _. k)

  pub if-Keeps :
      {A : Type 0} (b : Bool) (m n : Exec S A)
      → Keeps m
      → Keeps n
      → (s : S) → P s
      → P ((if b then m else n) s).1
  if-Keeps true m n h k = h
  if-Keeps false m n h k = k

  pub elim-Keeps :
      {A D : Type 0} (found : Option D) (f : D → Exec S A) (m : Exec S A)
      → ((x : D) → Keeps (f x))
      → Keeps m
      → Keeps (elim found [ some x ↦ f x | none ↦ m ])
  elim-Keeps (some x) f m h k = h x
  elim-Keeps none f m h k = k

  pub check_context-Keeps : (ctx : Context S) → KeepsPoll ctx → Keeps (check_context ctx)
  unfolding check_context
  check_context-Keeps ctx h s p = stop_if_canceled-Keeps (ctx.poll s) (h s p)
    where
      stop_if_canceled-Keeps : (out : Option Error × S) → P out.1 → P (stop_if_canceled out).1
      stop_if_canceled-Keeps (none, s') k = k
      stop_if_canceled-Keeps (some e, s') k = k
