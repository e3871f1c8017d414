-- ===== src/Notify/Dedupe/Attempts.antt =====
-- internal/notify/dedupe.go, `nextAttempt`: the number of the next attempt, and whether one succeeded.
use pooly_sentinel.Prelude.{
  zero, suc, ◌≡◌, refl, ℤ, pos, negsuc, leb_ℤ, max_int64, incr_int64, Bool, true, false, not, ◌&&◌,
  ◌||◌, List, [], ◌∷◌, Text, text_eq, has_prefix, all, any, and_true, arith,
}
use pooly_sentinel.Storage.Records.{NotificationDeliveryRecord}
use pooly_sentinel.Notify.Types.{delivered, status_text}
use pooly_sentinel.Notify.Dedupe.{attempt_prefix, count_attempt, count_attempts, next_attempt}

-- The record of an attempt under a key.
unfoldable pub is_under : Text → NotificationDeliveryRecord → Bool
is_under key d = has_prefix d.id (attempt_prefix key)

-- The record of one that succeeded.
unfoldable pub is_success : Text → NotificationDeliveryRecord → Bool
unfolding is_under
is_success key d = is_under key d && text_eq d.status (status_text delivered)

-- The number of an attempt is not the largest int64.
unfoldable pub has_successor : NotificationDeliveryRecord → Bool
has_successor d = not (leb_ℤ (pos max_int64) d.attempt)

-- An attempt under the key has a smaller number than `n`.
unfoldable pub is_earlier : Text → ℤ → NotificationDeliveryRecord → Bool
unfolding is_under
is_earlier key n d = not (is_under key d) || not (leb_ℤ n d.attempt)

pub count_attempts-found :
    (key : Text) (ds : List NotificationDeliveryRecord) (n : ℤ) (found : Bool)
    → (count_attempts key ds (n, found)).1 ≡ (found || any (is_success key) ds)
unfolding count_attempts count_attempt is_success is_under
count_attempts-found key [] n found = ground arith
count_attempts-found key (d ∷ ds) n found = ground (
  arith,
  count_attempts-found key ds (count_attempt key d (n, found)).0 (count_attempt key d (n, found)).1,
)

leb_ℤ-incr_int64 : (n : ℤ) → not (leb_ℤ (pos max_int64) n) ≡ true → leb_ℤ (incr_int64 n) n ≡ false
unfolding incr_int64
leb_ℤ-incr_int64 (pos n) h = ground arith
leb_ℤ-incr_int64 (negsuc zero) h = refl
leb_ℤ-incr_int64 (negsuc (suc n)) h = ground arith

leb_ℤ_refl : (a : ℤ) → leb_ℤ a a ≡ true
leb_ℤ_refl a = ground arith

leb_ℤ_total : (a b : ℤ) → leb_ℤ a b ≡ false → leb_ℤ b a ≡ true
leb_ℤ_total a b h = ground arith

leb_ℤ_trans : (a b c : ℤ) → leb_ℤ a b ≡ true → leb_ℤ b c ≡ true → leb_ℤ a c ≡ true
leb_ℤ_trans a b c h k = ground arith

leb_ℤ_raise : (a b c : ℤ) → leb_ℤ a b ≡ false → leb_ℤ a c ≡ true → leb_ℤ c b ≡ false
leb_ℤ_raise a b c h k = ground arith

count_attempt-covers :
    (key : Text) (d : NotificationDeliveryRecord) (n : ℤ) (found : Bool)
    → has_successor d ≡ true
    → (leb_ℤ n (count_attempt key d (n, found)).0 ≡ true)
      × (is_earlier key (count_attempt key d (n, found)).0 d ≡ true)
unfolding count_attempt is_earlier is_under has_successor
count_attempt-covers key d n found h = ground (
  arith,
  leb_ℤ_refl n,
  leb_ℤ-incr_int64 d.attempt h,
  leb_ℤ_total (incr_int64 d.attempt) d.attempt,
  leb_ℤ_trans n d.attempt (incr_int64 d.attempt),
)

is_earlier_later :
    (key : Text) (n m : ℤ) (d : NotificationDeliveryRecord)
    → leb_ℤ n m ≡ true
    → is_earlier key n d ≡ true
    → is_earlier key m d ≡ true
unfolding is_earlier
is_earlier_later key n m d h k = ground (arith, leb_ℤ_raise n d.attempt m)

count_attempts-covers :
    (key : Text) (ds : List NotificationDeliveryRecord) (n : ℤ) (found : Bool)
    → all has_successor ds ≡ true
    → (leb_ℤ n (count_attempts key ds (n, found)).0 ≡ true)
      × (all (is_earlier key (count_attempts key ds (n, found)).0) ds ≡ true)
unfolding count_attempts
count_attempts-covers key [] n found h = (leb_ℤ_refl n, refl)
count_attempts-covers key (d ∷ ds) n found h =
    let (head, tail) = and_true (has_successor d) (all has_successor ds) h in
    let (n', found') = count_attempt key d (n, found) in
    let m = (count_attempts key ds (n', found')).0 in
    let (here, covers) = count_attempt-covers key d n found head in
    let (up, rest) = count_attempts-covers key ds n' found' tail in
    (leb_ℤ_trans n n' m here up, rw (is_earlier_later key n' m d up covers) rest)

-- Where no attempt has the largest int64 as its number, the next attempt is at least the first and
-- comes after every attempt recorded under the key; and a duplicate is reported exactly where one of
-- those attempts was delivered.
pub next_attempt-covers :
    (key : Text) (ds : List NotificationDeliveryRecord)
    → all has_successor ds ≡ true
    → (leb_ℤ (pos 1) (next_attempt ds key).0 ≡ true)
      × ((all (is_earlier key (next_attempt ds key).0) ds ≡ true)
          × ((next_attempt ds key).1 ≡ any (is_success key) ds))
unfolding next_attempt
next_attempt-covers key ds h =
    let (first, covers) = count_attempts-covers key ds (pos 1) false h in
    (first, (covers, count_attempts-found key ds (pos 1) false))
