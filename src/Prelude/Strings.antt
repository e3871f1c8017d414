-- ===== src/Prelude/Strings.antt =====
-- Go strings as lists of bytes, with the functions of package `strings` that the program calls.
-- `to_lower`, `trim_space` and `equal_fold` are Go's on ASCII text.
use Prim.Native.Char.{code}
use Prim.Native.Nat.{ℕ, zero, suc, ◌+◌, ◌-◌, ◌≤◌}
use Prim.Native.String.{String}
use mathlib.Core.Path.{◌≡◌, refl}
use mathlib.Core.Logic.{◌↔◌}
use mathlib.Core.Bool.{Bool, true, false, not, ◌&&◌, ◌||◌}
use mathlib.Core.List.{List, [], ◌∷◌, ◌++◌, map, reverse}
use native.Mathlib.Omega.{arith}
use pooly_sentinel.Prelude.Tests.{leb, ltb, ◌==◌, if◌then◌else◌}
use pooly_sentinel.Prelude.Lists.{length, take, length-take}

abbrev pub Text : Type 0
Text = List ℕ

-- A literal of the source.
unfoldable pub text : String → Text
text String.[] = []
text (String.◌∷◌ c s) = code c ∷ text s

unfoldable pub text_eq : Text → Text → Bool
text_eq [] [] = true
text_eq [] (y ∷ ys) = false
text_eq (x ∷ xs) [] = false
text_eq (x ∷ xs) (y ∷ ys) = x == y && text_eq xs ys

pub text_eq_refl : (s : Text) → text_eq s s ≡ true
unfolding text_eq
text_eq_refl [] = refl
text_eq_refl (x ∷ xs) = ground (arith, text_eq_refl xs)

-- `a <= b` of texts, byte by byte.
unfoldable pub text_leb : Text → Text → Bool
text_leb [] t = true
text_leb (x ∷ s) [] = false
text_leb (x ∷ s) (y ∷ t) = ltb x y || (x == y && text_leb s t)

text_eq_sound : (s t : Text) → text_eq s t ≡ true → s ≡ t
unfolding text_eq
text_eq_sound [] [] h = refl
text_eq_sound [] (y ∷ ys) h = ground arith
text_eq_sound (x ∷ xs) [] h = ground arith
text_eq_sound (x ∷ xs) (y ∷ ys) h = ground (arith, text_eq_sound xs ys)

pub text_eq_iff : (s t : Text) → (text_eq s t ≡ true) ↔ (s ≡ t)
text_eq_iff s t = (text_eq_sound s t, λ e. rw e (text_eq_refl t))

-- `s == ""`.
abbrev pub is_empty : Text → Bool
is_empty [] = true
is_empty (x ∷ xs) = false

-- `s != ""`.
abbrev pub is_set : Text → Bool
is_set s = not (is_empty s)

pub is_empty_iff : (s : Text) → (is_empty s ≡ true) ↔ (s ≡ [])
is_empty_iff [] = ground arith
is_empty_iff (x ∷ xs) = ground arith

-- `if len(s) > n { return s[:n] }; return s`.
unfoldable pub truncate : ℕ → Text → Text
truncate n s = if ltb n (length s) then take n s else s

pub length-truncate : (n : ℕ) (s : Text) → length (truncate n s) ≤ n
unfolding truncate
length-truncate n s = ground (arith, length-take n s)

unfoldable pub lower : ℕ → ℕ
lower c = if leb b'A' c && leb c b'Z' then c + 32 else c

-- `strings.ToLower`.
unfoldable pub to_lower : Text → Text
unfolding lower
to_lower = map lower

unfoldable pub is_space : ℕ → Bool
is_space c = c == 32 || (leb 9 c && leb c 13)

unfoldable pub trim_left : Text → Text
unfolding is_space
trim_left [] = []
trim_left (c ∷ s) = if is_space c then trim_left s else c ∷ s

-- `strings.TrimSpace`.
unfoldable pub trim_space : Text → Text
unfolding trim_left
trim_space s = reverse (trim_left (reverse (trim_left s)))

-- `strings.EqualFold`.
unfoldable pub equal_fold : Text → Text → Bool
unfolding to_lower text_eq
equal_fold s t = text_eq (to_lower s) (to_lower t)

-- `strings.HasPrefix(s, p)`.
unfoldable pub has_prefix : Text → Text → Bool
has_prefix s [] = true
has_prefix [] (y ∷ p) = false
has_prefix (x ∷ s) (y ∷ p) = x == y && has_prefix s p

-- `strings.Contains(s, p)`.
unfoldable pub contains : Text → Text → Bool
unfolding has_prefix
contains [] p = has_prefix [] p
contains (x ∷ s) p = has_prefix (x ∷ s) p || contains s p

-- `skip` bytes of a match are still to be passed over.
replace_from : Text → Text → ℕ → Text → Text
replace_from old new skip [] = []
replace_from old new (suc skip) (x ∷ s) = replace_from old new skip s
replace_from old new zero (x ∷ s) =
    let hit = new ++ replace_from old new (length old - 1) s in
    let miss = x ∷ replace_from old new zero s in if has_prefix (x ∷ s) old then hit else miss

-- `strings.ReplaceAll(s, old, new)`, where `old` is not empty.
unfoldable pub replace_all : Text → Text → Text → Text
unfolding replace_from has_prefix
replace_all s old new = replace_from old new zero s

-- `strings.Join(parts, sep)`.
unfoldable pub join : List Text → Text → Text
join [] sep = []
join (s ∷ []) sep = s
join (s ∷ (t ∷ rest)) sep = s ++ (sep ++ join (t ∷ rest) sep)
