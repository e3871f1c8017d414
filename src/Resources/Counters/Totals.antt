-- ===== src/Resources/Counters/Totals.antt =====
-- internal/collectors/resources/state.go: the total of a day over a row of samples.
use pooly_sentinel.Prelude.{
  ◌≡◌, ap, ◌∙◌, ℕ, ◌+◌, ◌≤◌, leb→le, ◌-◌, ◌%◌, Bool, true, ◌&&◌, List, [], ◌∷◌, Text, text_eq,
  text_eq_refl, text_eq_iff, and_true, ltb, leb, arith,
}
use pooly_sentinel.Resources.Counters.{
  two_64, calculate_counter_delta, DailyCounter, of_day, add_delta, update_daily_counter,
}

-- A counter that is updated by one sample of a kernel counter after the other, at an instant each.
unfoldable pub total_after : (ℕ → Text) → DailyCounter → ℕ → List (ℕ × ℕ) → DailyCounter
unfolding update_daily_counter calculate_counter_delta
total_after format_day c previous [] = c
total_after format_day c previous ((now, current) ∷ rest) =
    total_after format_day
      (update_daily_counter format_day c now (calculate_counter_delta previous current true))
      current rest

-- The counter never falls, and all the samples are taken on one day.
unfoldable pub is_rising : (ℕ → Text) → Text → ℕ → List (ℕ × ℕ) → Bool
is_rising format_day day previous [] = true
is_rising format_day day previous ((now, current) ∷ rest) =
    leb previous current && text_eq (format_day now) day && is_rising format_day day current rest

unfoldable pub last_sample : ℕ → List (ℕ × ℕ) → ℕ
last_sample previous [] = previous
last_sample previous ((now, current) ∷ rest) = last_sample current rest

last_sample-is_rising :
    (format_day : ℕ → Text) (day : Text) (previous : ℕ) (samples : List (ℕ × ℕ))
    → is_rising format_day day previous samples ≡ true
    → leb previous (last_sample previous samples) ≡ true
unfolding is_rising last_sample
last_sample-is_rising f day previous [] h = ground arith
last_sample-is_rising f day previous ((now, current) ∷ rest) h =
    ground (arith, last_sample-is_rising f day current rest)

update_rising :
    (format_day : ℕ → Text) (c : DailyCounter) (previous now current : ℕ)
    → leb previous current ≡ true
    → text_eq (format_day now) c.day ≡ true
    → update_daily_counter format_day c now (calculate_counter_delta previous current true)
      ≡ record c { total = (c.total + (current - previous)) % two_64 }
unfolding update_daily_counter calculate_counter_delta of_day add_delta
update_rising f c previous now current h k =
    ground (arith, text_eq_iff (f now) c.day, text_eq_refl c.day)

distance :
    (t a b c : ℕ)
    → a ≤ b
    → b ≤ c
    → ((t + (b - a)) % two_64 + (c - b)) % two_64 ≡ (t + (c - a)) % two_64
distance t a b c h k = omega arith

-- While a kernel counter does not fall and all its samples are taken on the counter's day, the total of
-- that day, which starts below 2 ^ 64, grows by the distance from the first value of the kernel counter
-- to its last one, modulo 2 ^ 64, however many samples there are.
pub total_after-is_rising :
    (format_day : ℕ → Text) (c : DailyCounter) (previous : ℕ) (samples : List (ℕ × ℕ))
    → ltb c.total two_64 ≡ true
    → is_rising format_day c.day previous samples ≡ true
    → (total_after format_day c previous samples).total
      ≡ (c.total + (last_sample previous samples - previous)) % two_64
unfolding total_after is_rising last_sample
total_after-is_rising f c previous [] small h = ground arith
total_after-is_rising f c previous ((now, current) ∷ rest) small h =
    let (step, later) =
      and_true (leb previous current && text_eq (f now) c.day) (is_rising f c.day current rest) h in
    let (rises, same_day) = and_true (leb previous current) (text_eq (f now) c.day) step in
    let sum = (c.total + (current - previous)) % two_64 in
    ap (λ x. (total_after f x current rest).total)
      (update_rising f c previous now current rises same_day)
    ∙ total_after-is_rising f (record c { total = sum }) current rest (ground arith) later
    ∙ distance c.total previous current (last_sample current rest) (leb→le previous current rises) (
        leb→le current (last_sample current rest)
          (last_sample-is_rising f c.day current rest later))
