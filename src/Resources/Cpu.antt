-- ===== src/Resources/Cpu.antt =====
-- internal/collectors/resources/cpu.go: the lines of /proc/stat. A uint64 wraps around.
pub mod Words
pub mod RoundTrip
use pooly_sentinel.Prelude.{
  ℕ, zero, suc, ◌+◌, ◌-◌, ◌*◌, ◌%◌, Bool, true, false, not, ◌&&◌, ◌||◌, Option, none, some, List,
  [], ◌∷◌, ◌++◌, Text, text, text_eq, has_prefix, is_space, all, length, drop, ltb, leb, ◌==◌,
  if◌then◌else◌,
}
use pooly_sentinel.Effect.{Result, ok, err, message, and_then}
use pooly_sentinel.Resources.Counters.{two_64}

pub record CpuStat : Type 0 where
  pub name : Text
  pub user : ℕ
  pub nice : ℕ
  pub system : ℕ
  pub idle : ℕ
  pub iowait : ℕ
  pub irq : ℕ
  pub softirq : ℕ
  pub steal : ℕ
  pub guest : ℕ
  pub guest_nice : ℕ

-- `Total` and `Busy`.
unfoldable pub total : CpuStat → ℕ
total s = (s.user + s.nice + s.system + s.idle + s.iowait + s.irq + s.softirq + s.steal) % two_64

unfoldable pub busy : CpuStat → ℕ
unfolding total
busy s = let idle = (s.idle + s.iowait) % two_64 in if ltb (total s) idle then 0 else total s - idle

-- `strings.Split(s, "\n")`.
unfoldable pub lines : Text → List Text
lines [] = [] ∷ []
lines (c ∷ s) =
    let rest = lines s in
    if c == 10 then [] ∷ rest else (elim rest [ [] ↦ (c ∷ []) ∷ [] | l ∷ ls ↦ (c ∷ l) ∷ ls ])

-- `strings.Fields(s)`, of ASCII text: `word` is the word so far.
unfoldable pub fields_from : Text → Text → List Text
unfolding is_space
fields_from word [] = elim word [ [] ↦ [] | c ∷ w ↦ (c ∷ w) ∷ [] ]
fields_from word (c ∷ s) = elim (is_space c) [
  | true ↦ (elim word [ [] ↦ fields_from [] s | d ∷ w ↦ (d ∷ w) ∷ fields_from [] s ])
  | false ↦ fields_from (word ++ (c ∷ [])) s
]

unfoldable pub fields : Text → List Text
unfolding fields_from
fields s = fields_from [] s

unfoldable pub is_digit : ℕ → Bool
is_digit c = leb 48 c && leb c 57

unfoldable pub digits_value : ℕ → Text → ℕ
digits_value n [] = n
digits_value n (c ∷ s) = digits_value (n * 10 + (c - 48)) s

-- `strconv.ParseUint(s, 10, 64)`.
unfoldable pub parse_uint : Text → Option ℕ
unfolding is_digit digits_value
parse_uint [] = none
parse_uint (c ∷ s) =
    if not (all is_digit (c ∷ s))
    then none
    else if ltb (digits_value 0 (c ∷ s)) two_64
    then some (digits_value 0 (c ∷ s))
    else none

unfoldable pub is_cpu_name : Text → Bool
unfolding has_prefix is_digit text
is_cpu_name name =
    if leb (length name) 3 || not (has_prefix name (text "cpu"))
    then false
    else all is_digit (drop 3 name)

-- The loop over the first fields after the name; the rest of the ten values is 0. The quoted name of the
-- messages is left to `quote`.
unfoldable pub values : (Text → Text) → Text → ℕ → List Text → Result (List ℕ)
unfolding parse_uint text
values quote name zero words = ok []
values quote name (suc n) [] = and_then (values quote name n []) (λ vs. ok (0 ∷ vs))
values quote name (suc n) (w ∷ ws) = elim (parse_uint w) [
  | none ↦ err (message (text "cpu line " ++ (quote name ++ text " has malformed value")))
  | some v ↦ and_then (values quote name n ws) (λ vs. ok (v ∷ vs))
]

-- `values[i]`.
unfoldable pub value_at : ℕ → List ℕ → ℕ
value_at n [] = 0
value_at zero (v ∷ vs) = v
value_at (suc n) (v ∷ vs) = value_at n vs

unfoldable pub cpu_stat : Text → List ℕ → CpuStat
unfolding value_at
cpu_stat name vs = record {
  name = name;
  user = value_at 0 vs;
  nice = value_at 1 vs;
  system = value_at 2 vs;
  idle = value_at 3 vs;
  iowait = value_at 4 vs;
  irq = value_at 5 vs;
  softirq = value_at 6 vs;
  steal = value_at 7 vs;
  guest = value_at 8 vs;
  guest_nice = value_at 9 vs;
}

-- Whether a first field names a line of a processor, or of all.
unfoldable pub is_cpu_line : Text → Bool
unfolding has_prefix text_eq is_cpu_name text
is_cpu_line name = has_prefix name (text "cpu") && (text_eq name (text "cpu") || is_cpu_name name)

module _ (quote : Text → Text) where
  -- A line, by its fields; `none` is a line that is passed over.
  unfoldable pub parse_fields : List Text → Result (Option CpuStat)
  unfolding is_cpu_line values cpu_stat text
  parse_fields [] = ok none
  parse_fields (name ∷ words) =
      if not (is_cpu_line name)
      then ok none
      else if ltb (length words) 7
      then err (message (text "cpu line " ++ (quote name ++ text " is truncated")))
      else and_then (values quote name 10 words) (λ vs. ok (some (cpu_stat name vs)))

  -- The loop over the lines.
  unfoldable pub parse_lines : List Text → Result (List CpuStat)
  unfolding fields parse_fields
  parse_lines [] = ok []
  parse_lines (l ∷ ls) = and_then (parse_fields (fields l)) (λ found.
      and_then (parse_lines ls) (λ stats. elim found [ none ↦ ok stats | some s ↦ ok (s ∷ stats) ]))

  -- `if len(stats) == 0 { ... }`.
  unfoldable pub not_empty : List CpuStat → Result (List CpuStat)
  unfolding text
  not_empty [] = err (message (text "no cpu lines found"))
  not_empty (s ∷ stats) = ok (s ∷ stats)

  unfoldable pub parse_proc_stat_cpu : Text → Result (List CpuStat)
  unfolding lines parse_lines not_empty
  parse_proc_stat_cpu bytes = and_then (parse_lines (lines bytes)) not_empty

unfoldable pub cpu_count : List CpuStat → ℕ
unfolding is_cpu_name
cpu_count [] = 0
cpu_count (s ∷ stats) = let rest = cpu_count stats in if is_cpu_name s.name then rest + 1 else rest
