-- ===== src/Resources/Counters.antt =====
-- internal/collectors/resources/state.go: counters of the kernel, which start again at 0, and their totals
-- of a day. A uint64 wraps around. The text of a day is a parameter.
pub mod Totals
use pooly_sentinel.Prelude.{
  ℕ, ◌+◌, ◌-◌, ◌%◌, Bool, true, false, not, ◌&&◌, Text, text_eq, ltb, if◌then◌else◌,
}

abbrev pub two_64 : ℕ
two_64 = 18446744073709551616

pub record CounterDelta : Type 0 where
  pub delta : ℕ
  pub reset : Bool
  pub valid : Bool

unfoldable pub calculate_counter_delta : ℕ → ℕ → Bool → CounterDelta
calculate_counter_delta previous current has_previous =
    if not has_previous
    then record { delta = 0; reset = false; valid = false }
    else if ltb current previous
    then record { delta = 0; reset = true; valid = false }
    else record { delta = current - previous; reset = false; valid = true }

pub record DailyCounter : Type 0 where
  pub day : Text
  pub total : ℕ

-- `previous`, or a new counter on a new day.
unfoldable pub of_day : Text → DailyCounter → DailyCounter
unfolding text_eq
of_day day c = if not (text_eq c.day day) then record { day = day; total = 0 } else c

unfoldable pub add_delta : CounterDelta → DailyCounter → DailyCounter
add_delta delta c =
    if delta.valid && not delta.reset
    then record c { total = (c.total + delta.delta) % two_64 }
    else c

unfoldable pub update_daily_counter : (ℕ → Text) → DailyCounter → ℕ → CounterDelta → DailyCounter
unfolding of_day add_delta
update_daily_counter format_day previous now delta =
    add_delta delta (of_day (format_day now) previous)
