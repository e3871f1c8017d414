-- ===== src/Resources/Cpu/Words.antt =====
-- internal/collectors/resources/cpu.go, `ParseProcStatCPU`: the lines, words and numbers of a text are read back.
use pooly_sentinel.Prelude.{
  ◌≡◌, refl, sym, ap, ◌∙◌, ℕ, zero, suc, ◌+◌, ◌-◌, ◌*◌, ◌/◌, ◌%◌, ◌<◌, Bool, true, false, not, ◌&&◌,
  some, List, [], ◌∷◌, ◌++◌, map, Text, join, is_empty, is_space, is_set, all, all-append, and_true,
  ltb, leb, ◌==◌, arith, if◌then◌else◌,
}
use pooly_sentinel.Resources.Counters.{two_64}
use pooly_sentinel.Resources.Cpu.{lines, fields_from, is_digit, digits_value, parse_uint}
use mathlib.Core.List.{append-nil, append_assoc}

-- The decimal digits of a number that has at most as many.
unfoldable pub digits : ℕ → ℕ → Text
digits zero n = []
digits (suc room) n =
    let rest = digits room (n / 10) in
    if ltb n 10 then (48 + n) ∷ [] else rest ++ ((48 + n % 10) ∷ [])

unfoldable pub decimal : ℕ → Text
decimal n = digits 20 n

bound : ℕ → ℕ
bound zero = 1
bound (suc room) = 10 * bound room

digits_value-append :
    (m : ℕ) (s : Text) (c : ℕ) → digits_value m (s ++ (c ∷ [])) ≡ digits_value m s * 10 + (c - 48)
unfolding digits_value
digits_value-append m [] c = refl
digits_value-append m (x ∷ s) c = digits_value-append (m * 10 + (x - 48)) s c

digits_value-digits : (room n : ℕ) → n < bound room → digits_value 0 (digits room n) ≡ n
unfolding digits bound digits_value
digits_value-digits zero n h = omega arith
digits_value-digits (suc room) n h = ground (
  arith,
  digits_value-append 0 (digits room (n / 10)) (48 + n % 10),
  digits_value-digits room (n / 10),
)

all-digits : (room n : ℕ) → all is_digit (digits room n) ≡ true
unfolding digits is_digit
all-digits zero n = refl
all-digits (suc room) n = ground (
  arith,
  all-append is_digit (digits room (n / 10)) ((48 + n % 10) ∷ []),
  all-digits room (n / 10),
)

append_set : (s : Text) (c : ℕ) → is_empty (s ++ (c ∷ [])) ≡ false
append_set [] c = refl
append_set (x ∷ s) c = refl

digits_set : (room n : ℕ) → is_empty (digits (suc room) n) ≡ false
unfolding digits
digits_set room n = ground (arith, append_set (digits room (n / 10)) (48 + n % 10))

parse_uint_lem :
    (s : Text)
    → is_empty s ≡ false
    → all is_digit s ≡ true
    → ltb (digits_value 0 s) two_64 ≡ true
    → parse_uint s ≡ some (digits_value 0 s)
unfolding parse_uint
parse_uint_lem [] h k small = cc
parse_uint_lem (c ∷ s) h k small = rw (k, small) refl

pub parse_uint-decimal : (n : ℕ) → ltb n two_64 ≡ true → parse_uint (decimal n) ≡ some n
unfolding decimal bound
parse_uint-decimal n h =
    let same = digits_value-digits 20 n (ground arith) in
    parse_uint_lem (digits 20 n) (digits_set 19 n) (all-digits 20 n)
      (ap (λ m. ltb m two_64) same ∙ h)
    ∙ ap some same

-- A text without spaces.
abbrev pub is_solid : Text → Bool
is_solid w = all (λ c. not (is_space c)) w

fields_from-append :
    (word u rest : Text)
    → is_solid u ≡ true
    → fields_from word (u ++ rest) ≡ fields_from (word ++ u) rest
unfolding fields_from
fields_from-append word [] rest h = ap (λ w. fields_from w rest) (sym (append-nil word))
fields_from-append word (c ∷ u) rest h =
    let (head, tail) = and_true (not (is_space c)) (is_solid u) h in
    at (is_space c) head (
      fields_from-append (word ++ (c ∷ [])) u rest tail
      ∙ ap (λ w. fields_from w rest) (append_assoc word (c ∷ []) u))
  where
    at :
        (space : Bool)
        → not space ≡ true
        → fields_from (word ++ (c ∷ [])) (u ++ rest) ≡ fields_from (word ++ (c ∷ u)) rest
        → (elim space as (λ _. List Text) [
          | true ↦ (elim word as (λ _. List Text) [
            | [] ↦ fields_from [] (u ++ rest)
            | d ∷ w ↦ (d ∷ w) ∷ fields_from [] (u ++ rest)
          ])
          | false ↦ fields_from (word ++ (c ∷ [])) (u ++ rest)
        ])
          ≡ fields_from (word ++ (c ∷ u)) rest
    at true e k = cc
    at false e k = k

-- A word of a line.
abbrev pub is_word : Text → Bool
is_word w = is_set w && is_solid w

fields_from_end : (w : Text) → is_set w ≡ true → fields_from w [] ≡ w ∷ []
unfolding fields_from
fields_from_end [] h = cc
fields_from_end (c ∷ w) h = refl

fields_from_space :
    (w rest : Text) → is_set w ≡ true → fields_from w (32 ∷ rest) ≡ w ∷ fields_from [] rest
unfolding fields_from
fields_from_space [] rest h = cc
fields_from_space (c ∷ w) rest h = refl

no_fields : fields_from [] [] ≡ []
unfolding fields_from
no_fields = refl

pub fields-join : (ws : List Text) → all is_word ws ≡ true → fields_from [] (join ws (32 ∷ [])) ≡ ws
unfolding join
fields-join [] h = no_fields
fields-join (w ∷ []) h =
    let (given, solid) = and_true (is_set w) (is_solid w) (and_true (is_word w) true h).0 in
    ap (fields_from []) (sym (append-nil w))
    ∙ fields_from-append [] w [] solid
    ∙ fields_from_end w given
fields-join (w ∷ (v ∷ ws)) h =
    let (head, tail) = and_true (is_word w) (all is_word (v ∷ ws)) h in
    let (given, solid) = and_true (is_set w) (is_solid w) head in
    fields_from-append [] w (32 ∷ join (v ∷ ws) (32 ∷ [])) solid
    ∙ fields_from_space w (join (v ∷ ws) (32 ∷ [])) given
    ∙ ap (λ rest. w ∷ rest) (fields-join (v ∷ ws) tail)

-- A line has no line break.
abbrev pub is_line : Text → Bool
is_line l = all (λ c. not (c == 10)) l

lines-line : (l : Text) → is_line l ≡ true → lines l ≡ l ∷ []
unfolding lines
lines-line [] h = refl
lines-line (c ∷ l) h = ground (arith, lines-line l)

lines-append : (l rest : Text) → is_line l ≡ true → lines (l ++ (10 ∷ rest)) ≡ l ∷ lines rest
unfolding lines
lines-append [] rest h = refl
lines-append (c ∷ l) rest h = ground (arith, lines-append l rest)

pub lines-join :
    (l : Text) (ls : List Text)
    → all is_line (l ∷ ls) ≡ true
    → lines (join (l ∷ ls) (10 ∷ [])) ≡ l ∷ ls
unfolding join
lines-join l [] h = lines-line l (and_true (is_line l) true h).0
lines-join l (m ∷ ls) h =
    let (head, tail) = and_true (is_line l) (all is_line (m ∷ ls)) h in
    lines-append l (join (m ∷ ls) (10 ∷ [])) head ∙ ap (λ rest. l ∷ rest) (lines-join m ls tail)

solid_line : (w : Text) → is_solid w ≡ true → is_line w ≡ true
unfolding is_space
solid_line [] h = refl
solid_line (c ∷ w) h = ground (arith, solid_line w)

pub is_line-join : (ws : List Text) → all is_word ws ≡ true → is_line (join ws (32 ∷ [])) ≡ true
unfolding join
is_line-join [] h = refl
is_line-join (w ∷ []) h =
    solid_line w (and_true (is_set w) (is_solid w) (and_true (is_word w) true h).0).1
is_line-join (w ∷ (v ∷ ws)) h =
    let (head, tail) = and_true (is_word w) (all is_word (v ∷ ws)) h in
    all-append (λ c. not (c == 10)) w (32 ∷ join (v ∷ ws) (32 ∷ []))
      (solid_line w (and_true (is_set w) (is_solid w) head).1) (is_line-join (v ∷ ws) tail)

pub is_solid-digits : (ds : Text) → all (λ c. leb 48 c && leb c 57) ds ≡ true → is_solid ds ≡ true
unfolding is_space
is_solid-digits [] h = refl
is_solid-digits (c ∷ ds) h = ground (arith, is_solid-digits ds)

all_digit : (ds : Text) → all is_digit ds ≡ true → all (λ c. leb 48 c && leb c 57) ds ≡ true
unfolding is_digit
all_digit ds h = h

is_word-decimal : (n : ℕ) → is_word (decimal n) ≡ true
unfolding decimal
is_word-decimal n =
    rw (digits_set 19 n) (is_solid-digits (digits 20 n) (all_digit (digits 20 n) (all-digits 20 n)))

pub all-decimal : (ns : List ℕ) → all is_word (map decimal ns) ≡ true
all-decimal [] = refl
all-decimal (n ∷ ns) = rw (is_word-decimal n) (all-decimal ns)
