-- ===== src/Resources/Cpu/RoundTrip.antt =====
-- internal/collectors/resources/cpu.go, `ParseProcStatCPU`: a text in the form of /proc/stat is read back.
use pooly_sentinel.Prelude.{
  ◌≡◌, ◌≢◌, refl, ap, ◌∙◌, ℕ, Bool, true, false, ◌&&◌, none, some, List, [], ◌∷◌, map, Text, text,
  join, is_space, has_prefix, text_eq, all, and_true, length, ltb, leb, arith,
}
use pooly_sentinel.Effect.{ok, and_then}
use pooly_sentinel.Resources.Counters.{two_64}
use pooly_sentinel.Resources.Cpu.{
  CpuStat, fields, is_digit, is_cpu_name, values, value_at, cpu_stat, is_cpu_line, parse_fields,
  parse_lines, not_empty, parse_proc_stat_cpu,
}
use pooly_sentinel.Resources.Cpu.Words.{
  decimal, is_word, is_line, parse_uint-decimal, fields-join, lines-join, is_line-join,
  is_solid-digits, all-decimal,
}

-- A line of the text: that of a processor, or of all, or another one, by its words.
pub data Item : Type 0 where
  stat : CpuStat → Item
  other : List Text → Item

abbrev stat_values : CpuStat → List ℕ
stat_values s =
    s.user ∷ s.nice ∷ s.system ∷ s.idle ∷ s.iowait ∷ s.irq ∷ s.softirq ∷ s.steal ∷ s.guest
    ∷ s.guest_nice ∷ []

unfoldable pub words_of : Item → List Text
unfolding decimal
words_of (stat s) = s.name ∷ map decimal (stat_values s)
words_of (other words) = words

unfoldable pub render : List Item → Text
unfolding words_of join
render items = join (map (λ i. join (words_of i) (32 ∷ [])) items) (10 ∷ [])

unfoldable pub stats_of : List Item → List CpuStat
stats_of [] = []
stats_of (stat s ∷ items) = s ∷ stats_of items
stats_of (other words ∷ items) = stats_of items

abbrev starts_with_cpu : List Text → Bool
starts_with_cpu [] = false
starts_with_cpu (w ∷ ws) = has_prefix w (99 ∷ 112 ∷ 117 ∷ [])

-- A processor's name is "cpu" and its digits, and its values are uint64; another line does not begin with
-- "cpu".
abbrev pub IsGood : Item → Type 0
IsGood (stat s) =
    ((ds : Text) × (s.name ≡ 99 ∷ 112 ∷ 117 ∷ ds) × (all (λ c. leb 48 c && leb c 57) ds ≡ true))
    × (all (λ n. ltb n two_64) (stat_values s) ≡ true)
IsGood (other words) = (all is_word words ≡ true) × (starts_with_cpu words ≡ false)

abbrev pub AreGood : List Item → Type 0
AreGood [] = Unit
AreGood (i ∷ items) = IsGood i × AreGood items

is_word-name :
    (ds : Text) → all (λ c. leb 48 c && leb c 57) ds ≡ true → is_word (99 ∷ 112 ∷ 117 ∷ ds) ≡ true
unfolding is_space
is_word-name ds h = is_solid-digits ds h

all-words_of : (i : Item) → IsGood i → all is_word (words_of i) ≡ true
unfolding words_of
all-words_of (stat s) ((ds, same, plain), small) =
    ap (λ b. b && all is_word (map decimal (stat_values s)))
      (ap is_word same ∙ is_word-name ds plain)
    ∙ all-decimal (stat_values s)
all-words_of (other words) (h, k) = h

is_cpu_line-name :
    (ds : Text)
    → all (λ c. leb 48 c && leb c 57) ds ≡ true
    → is_cpu_line (99 ∷ 112 ∷ 117 ∷ ds) ≡ true
unfolding is_cpu_line is_cpu_name is_digit text text_eq has_prefix
is_cpu_line-name [] h = refl
is_cpu_line-name (c ∷ ds) h = ground (arith, h)

module _ (quote : Text → Text) where
  values-decimal :
      (name : Text) (vs : List ℕ)
      → all (λ n. ltb n two_64) vs ≡ true
      → values quote name (length vs) (map decimal vs) ≡ ok vs
  unfolding values
  values-decimal name [] h = refl
  values-decimal name (v ∷ vs) h =
      let (head, tail) = and_true (ltb v two_64) (all (λ n. ltb n two_64) vs) h in
      rw (parse_uint-decimal v head, values)
        (ap (λ r. and_then r (λ us. ok (v ∷ us))) (values-decimal name vs tail))

  parse_fields-other :
      (words : List Text) → starts_with_cpu words ≡ false → parse_fields quote words ≡ ok none
  unfolding parse_fields is_cpu_line text
  parse_fields-other [] h = refl
  parse_fields-other (w ∷ words) h = rw h refl

  parse_fields-stat :
      (s : CpuStat) → IsGood (stat s) → parse_fields quote (words_of (stat s)) ≡ ok (some s)
  unfolding parse_fields words_of cpu_stat value_at
  parse_fields-stat s ((ds, same, plain), small) =
      rw
        (
          ap is_cpu_line same ∙ is_cpu_line-name ds plain,
          values-decimal s.name (stat_values s) small,
        )
        refl

  parse_fields-words_of :
      (i : Item)
      → IsGood i
      → parse_fields quote (words_of i) ≡ ok (elim i [ stat s ↦ some s | other ws ↦ none ])
  unfolding words_of
  parse_fields-words_of (stat s) h = parse_fields-stat s h
  parse_fields-words_of (other ws) h = parse_fields-other ws h.1

  abbrev line_of : Item → Text
  line_of i = join (words_of i) (32 ∷ [])

  parse_fields-line_of :
      (i : Item)
      → IsGood i
      → parse_fields quote (fields (line_of i)) ≡ ok (elim i [ stat s ↦ some s | other ws ↦ none ])
  unfolding fields
  parse_fields-line_of i h =
      ap (parse_fields quote) (fields-join (words_of i) (all-words_of i h))
      ∙ parse_fields-words_of i h

  parse_lines-line_of :
      (items : List Item)
      → AreGood items
      → parse_lines quote (map line_of items) ≡ ok (stats_of items)
  unfolding parse_lines stats_of
  parse_lines-line_of [] h = refl
  parse_lines-line_of (stat s ∷ items) (h, k) =
      rw (parse_fields-line_of (stat s) h, parse_lines-line_of items k) refl
  parse_lines-line_of (other ws ∷ items) (h, k) =
      rw (parse_fields-line_of (other ws) h, parse_lines-line_of items k) refl

  all-line_of : (items : List Item) → AreGood items → all is_line (map line_of items) ≡ true
  all-line_of [] h = refl
  all-line_of (i ∷ items) (h, k) =
      rw (is_line-join (words_of i) (all-words_of i h)) (all-line_of items k)

  not_empty_lem : (stats : List CpuStat) → stats ≢ [] → not_empty quote stats ≡ ok stats
  unfolding not_empty
  not_empty_lem [] some_stat = absurd (some_stat refl)
  not_empty_lem (s ∷ stats) some_stat = refl

  -- A text of lines of words in the form of /proc/stat, some of them of processors (a name of "cpu" and
  -- digits, and ten decimal numbers below 2 ^ 64) and the others with a first word that does not begin with
  -- "cpu", is parsed into exactly the values of its processors, in their order, if there is one.
  pub parse_proc_stat_cpu-render :
      (items : List Item)
      → AreGood items
      → stats_of items ≢ []
      → parse_proc_stat_cpu quote (render items) ≡ ok (stats_of items)
  unfolding parse_proc_stat_cpu render stats_of
  parse_proc_stat_cpu-render [] h some_stat = absurd (some_stat refl)
  parse_proc_stat_cpu-render (i ∷ items) h some_stat =
      ap (λ ls. and_then (parse_lines quote ls) (not_empty quote))
        (lines-join (line_of i) (map line_of items) (all-line_of (i ∷ items) h))
      ∙ ap (λ r. and_then r (not_empty quote)) (parse_lines-line_of (i ∷ items) h)
      ∙ not_empty_lem (stats_of (i ∷ items)) some_stat
