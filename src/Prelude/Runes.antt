-- ===== src/Prelude/Runes.antt =====
-- The characters that `for _, r := range s` finds in a string, by the rules of UTF-8: a byte that begins no
-- character counts as U+FFFD, one byte long.
use Prim.Native.Nat.{ℕ, zero, suc, ◌+◌, ◌-◌, ◌*◌}
use mathlib.Core.Path.{◌≡◌, refl, ap, ◌∙◌}
use mathlib.Core.Bool.{Bool, true, ◌&&◌}
use mathlib.Core.List.{List, [], ◌∷◌}
use pooly_sentinel.Prelude.Tests.{and_true, leb, ltb, ◌==◌, if◌then◌else◌}
use pooly_sentinel.Prelude.Lists.{all}
use pooly_sentinel.Prelude.Strings.{Text}

abbrev continues : ℕ → Bool
continues b = leb 128 b && leb b 191

-- A character, and the bytes that it takes after its first one.
abbrev wrong_byte : ℕ × ℕ
wrong_byte = (65533, 0)

unfoldable decode_two : ℕ → Text → ℕ × ℕ
decode_two c (x ∷ s) = if continues x then ((c - 192) * 64 + (x - 128), 1) else wrong_byte
decode_two c _ = wrong_byte

unfoldable decode_three : ℕ → Text → ℕ × ℕ
decode_three c (x ∷ y ∷ s) =
    if leb (if c == 224 then 160 else 128) x && leb x (if c == 237 then 159 else 191) && continues y
    then ((c - 224) * 4096 + (x - 128) * 64 + (y - 128), 2)
    else wrong_byte
decode_three c _ = wrong_byte

unfoldable decode_four : ℕ → Text → ℕ × ℕ
decode_four c (x ∷ y ∷ z ∷ s) =
    if leb (if c == 240 then 144 else 128) x
      && leb x (if c == 244 then 143 else 191)
      && continues y
      && continues z
    then ((c - 240) * 262144 + (x - 128) * 4096 + (y - 128) * 64 + (z - 128), 3)
    else wrong_byte
decode_four c _ = wrong_byte

unfoldable decode : ℕ → Text → ℕ × ℕ
unfolding decode_two decode_three decode_four
decode c s =
    if ltb c 128
    then (c, 0)
    else if leb 194 c && leb c 223
    then decode_two c s
    else if leb 224 c && leb c 239
    then decode_three c s
    else if leb 240 c && leb c 244
    then decode_four c s
    else wrong_byte

-- `skip` bytes of a character are still to be passed over.
unfoldable runes_from : ℕ → Text → List ℕ
unfolding decode
runes_from skip [] = []
runes_from (suc skip) (c ∷ s) = runes_from skip s
runes_from zero (c ∷ s) = let (r, more) = decode c s in r ∷ runes_from more s

unfoldable pub runes : Text → List ℕ
unfolding runes_from
runes s = runes_from 0 s

abbrev pub is_ascii : ℕ → Bool
is_ascii c = ltb c 128

decode_ascii : (c : ℕ) (s : Text) → is_ascii c ≡ true → decode c s ≡ (c, 0)
unfolding decode
decode_ascii c s h = rw h refl

-- A text of ASCII is its characters.
pub runes-ascii : (s : Text) → all is_ascii s ≡ true → runes s ≡ s
unfolding runes
runes-ascii [] h = refl
runes-ascii (c ∷ s) h =
    let (head, tail) = and_true (is_ascii c) (all is_ascii s) h in
    ap (λ d. d.0 ∷ runes_from d.1 s) (decode_ascii c s head) ∙ ap (λ t. c ∷ t) (runes-ascii s tail)
