-- ===== src/Effect.antt =====
-- Go's errors as values, and operations that read and change a state `S` and may fail. What was
-- written before a failure stays written, so the state comes back beside the error too.
pub mod Keeps
use pooly_sentinel.Prelude.{◌≡◌, refl, ap, Text, Bool, true, false, Option, none, some}

-- The errors that the program tells apart with `errors.Is`.
pub data Sentinel : Type 0 where
  not_found closed future_schema canceled deadline_exceeded : Sentinel

-- internal/storage/errors.go, `ErrorClass`.
pub data ErrorClass : Type 0 where
  validation open_class migrate query write class_not_found class_closed future : ErrorClass

pub data Error : Type 0 where
  sentinel : Sentinel → Error
  message : Text → Error
  prefixed : Text → Error → Error
  storage : Text → ErrorClass → Error → Error

unfoldable pub same_sentinel : Sentinel → Sentinel → Bool
same_sentinel not_found not_found = true
same_sentinel closed closed = true
same_sentinel future_schema future_schema = true
same_sentinel canceled canceled = true
same_sentinel deadline_exceeded deadline_exceeded = true
same_sentinel _ _ = false

-- `errors.Is(err, target)` follows the chain of wrapped errors.
unfoldable pub is_error : Error → Sentinel → Bool
unfolding same_sentinel
is_error (sentinel s) target = same_sentinel s target
is_error (message m) target = false
is_error (prefixed p e) target = is_error e target
is_error (storage op class e) target = is_error e target

pub data Result {ℓ} (A : Type ℓ) : Type ℓ where
  ok : A → Result A
  err : Error → Result A

abbrev pub Exec {ℓ} : Type ℓ → Type ℓ → Type ℓ
Exec S A = S → Result A × S

-- `ctx.Err()`: `none` stands for nil. A poll may see that the context was canceled meanwhile.
pub record Context (S : Type 0) : Type 0 where
  pub poll : S → Option Error × S

module _ {ℓ} {S A : Type ℓ} where
  abbrev pub pure : A → Exec S A
  pure a s = (ok a, s)

  abbrev pub raise : Error → Exec S A
  raise e s = (err e, s)

  abbrev pub lift : Result A → Exec S A
  lift r s = (r, s)

module _ {ℓ} {S A B : Type ℓ} where
  abbrev pub continue : Result A → (A → Exec S B) → Exec S B
  continue (ok a) f s = f a s
  continue (err e) f s = (err e, s)

  infixl 10 ◌>>=◌ ◌>>◌
  abbrev pub ◌>>=◌ : Exec S A → (A → Exec S B) → Exec S B
  ◌>>=◌ m f s = let (r, s') = m s in continue r f s'

  abbrev pub ◌>>◌ : Exec S A → Exec S B → Exec S B
  m >> n = m >>= λ _. n

module _ {ℓ κ} {A : Type ℓ} {B : Type κ} where
  abbrev pub and_then : Result A → (A → Result B) → Result B
  and_then (ok a) f = f a
  and_then (err e) f = err e

-- `if err := ctx.Err(); err != nil { return err }`.
unfoldable pub stop_if_canceled : {S : Type 0} → Option Error × S → Result (Unit {0}) × S
stop_if_canceled (none, s) = (ok tt, s)
stop_if_canceled (some e, s) = (err e, s)

unfoldable pub check_context : {S : Type 0} → Context S → Exec S (Unit {0})
unfolding stop_if_canceled
check_context ctx s = stop_if_canceled (ctx.poll s)

-- A chain of fallible steps that succeeds has succeeded in its first step.
pub and_then-eq-ok {ℓ κ} :
    {A : Type ℓ} {B : Type κ} (m : Result A) (f : A → Result B) {b : B}
    → and_then m f ≡ ok b
    → (a : A) × (m ≡ ok a) × (f a ≡ ok b)
and_then-eq-ok (ok a) f h = (a, refl, h)
and_then-eq-ok (err e) f h = cc

-- A step that succeeds hands its value and its state to the rest.
pub bind-eq_ok {ℓ} :
    {S A B : Type ℓ} (m : Exec S A) (f : A → Exec S B) {s s' : S} {a : A}
    → m s ≡ (ok a, s')
    → (m >>= f) s ≡ f a s'
bind-eq_ok m f h = ap (λ out. continue out.0 f out.1) h

pub ok_injective {ℓ} : {A : Type ℓ} {a b : A} → ok a ≡ ok b → a ≡ b
ok_injective h = cc
