-- ===== src/Prelude/Int.antt =====
-- Go's int64 durations as signed integers. A difference of two instants saturates at the ends of
-- int64, as `time.Time.Sub` documents.
use Prim.Native.Nat.{ℕ, zero, suc, ◌+◌, ◌-◌, ◌≤◌}
use mathlib.Core.Path.{◌≡◌}
use mathlib.Core.Bool.{Bool, true, false}
use native.Mathlib.Omega.{arith}
use pooly_sentinel.Prelude.Tests.{leb, ◌==◌, if◌then◌else◌}

-- `negsuc n` is -(n + 1).
pub data ℤ : Type 0 where
  pos : ℕ → ℤ
  negsuc : ℕ → ℤ

abbrev pub pos_part : ℤ → ℕ
pos_part (pos n) = n
pos_part (negsuc n) = 0

abbrev pub neg_part : ℤ → ℕ
neg_part (pos n) = 0
neg_part (negsuc n) = suc n

abbrev pub leb_ℤ : ℤ → ℤ → Bool
leb_ℤ a b = leb (pos_part a + neg_part b) (pos_part b + neg_part a)

abbrev pub max_int64 : ℕ
max_int64 = 9223372036854775807

-- `n++` on an int64, which wraps around.
unfoldable pub incr_int64 : ℤ → ℤ
incr_int64 (pos n) = if leb max_int64 n then negsuc max_int64 else pos (suc n)
incr_int64 (negsuc zero) = pos 0
incr_int64 (negsuc (suc n)) = negsuc n

-- Instants are nanoseconds since the zero `time.Time`; this is `t.Sub(u)`.
unfoldable pub sub_time : ℕ → ℕ → ℤ
sub_time t u =
    if leb u t
    then pos (if leb (t - u) max_int64 then t - u else max_int64)
    else negsuc (if leb (u - t) max_int64 then u - t - 1 else max_int64)

-- A wait of at most int64's largest duration is over once the difference of the instants is.
pub sub_time-ge : (t u d : ℕ) → d ≤ max_int64 → u + d ≤ t → leb_ℤ (pos d) (sub_time t u) ≡ true
unfolding sub_time
sub_time-ge t u d small h = ground arith

pub sub_time-ge_inv : (t u d : ℕ) → leb_ℤ (pos (suc d)) (sub_time t u) ≡ true → u + suc d ≤ t
unfolding sub_time
sub_time-ge_inv t u d h = ground arith

unfoldable pub eq_ℤ : ℤ → ℤ → Bool
eq_ℤ (pos m) (pos n) = m == n
eq_ℤ (negsuc m) (negsuc n) = m == n
eq_ℤ _ _ = false

pub eq_ℤ_sound : (a b : ℤ) → eq_ℤ a b ≡ true → a ≡ b
unfolding eq_ℤ
eq_ℤ_sound (pos m) (pos n) h = ground arith
eq_ℤ_sound (pos m) (negsuc n) h = ground arith
eq_ℤ_sound (negsuc m) (pos n) h = ground arith
eq_ℤ_sound (negsuc m) (negsuc n) h = ground arith

pub eq_ℤ_refl : (a : ℤ) → eq_ℤ a a ≡ true
unfolding eq_ℤ
eq_ℤ_refl (pos n) = ground arith
eq_ℤ_refl (negsuc n) = ground arith
