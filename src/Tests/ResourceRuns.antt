-- ===== src/Tests/ResourceRuns.antt =====
-- Runs of internal/collectors/resources: a counter of the kernel over a day, and the lines of processors.
use pooly_sentinel.Prelude.{
  ◌≡◌, refl, ℕ, true, List, [], ◌∷◌, ◌++◌, Text, text, text_eq, is_space, has_prefix,
}
use pooly_sentinel.Effect.{ok, err, message}
use pooly_sentinel.Resources.Counters.{DailyCounter, calculate_counter_delta, update_daily_counter}
use pooly_sentinel.Resources.Counters.Totals.{
  total_after, is_rising, last_sample, total_after-is_rising,
}
use pooly_sentinel.Resources.Cpu.{CpuStat, busy, parse_proc_stat_cpu, cpu_count}
use pooly_sentinel.Resources.Cpu.RoundTrip.{
  Item, stat, other, render, stats_of, parse_proc_stat_cpu-render,
}

abbrev one_day : ℕ → Text
one_day t = text "2026-01-02"

abbrev morning : DailyCounter
morning = record { day = text "2026-01-02"; total = 40 }

abbrev samples : List (ℕ × ℕ)
samples = (1, 105) ∷ (2, 105) ∷ (3, 130) ∷ []

total_after-is_rising_example : (total_after one_day morning 100 samples).total ≡ 70
unfolding is_rising text_eq text last_sample
total_after-is_rising_example = total_after-is_rising one_day morning 100 samples refl refl

-- A counter that starts again adds nothing.
restart : (update_daily_counter one_day morning 4 (calculate_counter_delta 130 9 true)).total ≡ 40
unfolding update_daily_counter calculate_counter_delta text
restart = refl

abbrev two_lines : Text
two_lines =
    text "cpu  1 2 3 4 5 6 7 8 9 10" ++ (10 ∷ (text "intr 5" ++ (10 ∷ text "cpu0 1 2 3 4 5 6 7")))

abbrev everything : CpuStat
everything = record {
  name = text "cpu";
  user = 1;
  nice = 2;
  system = 3;
  idle = 4;
  iowait = 5;
  irq = 6;
  softirq = 7;
  steal = 8;
  guest = 9;
  guest_nice = 10;
}

abbrev first_cpu : CpuStat
first_cpu = record everything { name = text "cpu0"; steal = 0; guest = 0; guest_nice = 0 }

two_lines_read : parse_proc_stat_cpu (λ s. s) two_lines ≡ ok (everything ∷ first_cpu ∷ [])
unfolding parse_proc_stat_cpu
two_lines_read = refl

abbrev full_cpu : CpuStat
full_cpu = record everything { name = text "cpu0"; idle = 18446744073709551615 }

abbrev items : List Item
items = stat everything ∷ other (text "intr" ∷ text "5" ∷ []) ∷ stat full_cpu ∷ []

parse_proc_stat_cpu-render_example :
    parse_proc_stat_cpu (λ s. s) (render items) ≡ ok (stats_of items)
unfolding stats_of is_space text has_prefix
parse_proc_stat_cpu-render_example =
    parse_proc_stat_cpu-render (λ s. s) items
      ((([], refl, refl), refl), ((refl, refl), (((48 ∷ [], refl, refl), refl), tt))) (λ e. cc)

truncated :
    parse_proc_stat_cpu (λ s. s) (text "cpu 1 2 3")
    ≡ err (message (text "cpu line cpu is truncated"))
unfolding parse_proc_stat_cpu
truncated = refl

busy_and_total : busy everything ≡ 27
unfolding busy
busy_and_total = refl

one_cpu : cpu_count (everything ∷ first_cpu ∷ []) ≡ 1
unfolding cpu_count
one_cpu = refl
