-- ===== src/Filewatch/Names/Safe.antt =====
-- internal/collectors/filewatch/baseline.go, `safeName`: the shape of a name.
use pooly_sentinel.Prelude.{
  ◌≡◌, refl, ap, ◌∙◌, not, ◌&&◌, ltb, ◌==◌, runes, is_ascii, runes-ascii, reverse, all-reverse,
  and_true, ℕ, zero, suc, Bool, true, false, [], ◌∷◌, Text, text, is_set, all, trim_space, length,
  leb, arith,
}
use mathlib.Core.List.{reverse-reverse}
use pooly_sentinel.Prelude.Strings.{trim_left}
use pooly_sentinel.Filewatch.Names.{is_name_char, name_chars, or_target, safe_name}

length-name_chars : (room : ℕ) (s : Text) → leb (length (name_chars room s)) room ≡ true
unfolding name_chars
length-name_chars zero s = ground arith
length-name_chars (suc room) [] = ground arith
length-name_chars (suc room) (c ∷ s) =
    ground (arith, length-name_chars room s, length-name_chars (suc room) s)

all-name_chars : (room : ℕ) (s : Text) → all is_name_char (name_chars room s) ≡ true
unfolding name_chars
all-name_chars zero s = refl
all-name_chars (suc room) [] = refl
all-name_chars (suc room) (c ∷ s) =
    at (is_name_char c) refl (all-name_chars room s) (all-name_chars (suc room) s)
  where
    at :
        (b : Bool)
        → is_name_char c ≡ b
        → all is_name_char (name_chars room s) ≡ true
        → all is_name_char (name_chars (suc room) s) ≡ true
        → all is_name_char (elim b as (λ _. Text) [
          | true ↦ c ∷ name_chars room s
          | false ↦ name_chars (suc room) s
        ])
          ≡ true
    at true e kept rest = rw (e, kept) refl
    at false e kept rest = rest

-- Visible ASCII with no slash, no backslash and no colon.
abbrev pub is_plain : ℕ → Bool
is_plain c = ltb 32 c && ltb c 127 && not (c == 47) && not (c == 92) && not (c == 58)

plain-all : (s : Text) → all is_name_char s ≡ true → all is_plain s ≡ true
unfolding is_name_char
plain-all [] h = refl
plain-all (c ∷ s) h = ground (arith, plain-all s)

ascii-all : (s : Text) → all is_name_char s ≡ true → all is_ascii s ≡ true
unfolding is_name_char
ascii-all [] h = refl
ascii-all (c ∷ s) h = ground (arith, ascii-all s)

trim_left-all : (s : Text) → all is_name_char s ≡ true → trim_left s ≡ s
unfolding is_name_char trim_left
trim_left-all [] h = refl
trim_left-all (c ∷ s) h = ground arith

trim_space-all : (s : Text) → all is_name_char s ≡ true → trim_space s ≡ s
unfolding trim_space
trim_space-all s h =
    ap (λ u. reverse (trim_left (reverse u))) (trim_left-all s h)
    ∙ ap reverse (trim_left-all (reverse s) (all-reverse is_name_char s h))
    ∙ reverse-reverse s

name_chars-all :
    (room : ℕ) (s : Text)
    → leb (length s) room ≡ true
    → all is_name_char s ≡ true
    → name_chars room s ≡ s
unfolding name_chars
name_chars-all zero [] h k = refl
name_chars-all zero (c ∷ s) h k = ground arith
name_chars-all (suc room) [] h k = refl
name_chars-all (suc room) (c ∷ s) h k =
    let (head, tail) = and_true (is_name_char c) (all is_name_char s) k in
    rw (head, name_chars) (ap (λ t. c ∷ t) (name_chars-all room s (ground arith) tail))

-- What the loop makes of a text, or the name that stands for none.
record IsKept (s : Text) : Type 0 where
  given : is_set s ≡ true
  short : leb (length s) 96 ≡ true
  kept : all is_name_char s ≡ true

or_target-IsKept :
    (s : Text) → leb (length s) 96 ≡ true → all is_name_char s ≡ true → IsKept (or_target s)
unfolding or_target is_name_char text
or_target-IsKept [] h k = record { given = refl; short = refl; kept = refl }
or_target-IsKept (c ∷ s) h k = record { given = refl; short = h; kept = k }

safe_name-IsKept : (value : Text) → IsKept (safe_name value)
unfolding safe_name
safe_name-IsKept value =
    let s = runes (trim_space value) in
    or_target-IsKept (name_chars 96 s) (length-name_chars 96 s) (all-name_chars 96 s)

or_target_set : (s : Text) → is_set s ≡ true → or_target s ≡ s
unfolding or_target
or_target_set [] h = cc
or_target_set (c ∷ s) h = refl

safe_name_kept : (s : Text) → IsKept s → safe_name s ≡ s
unfolding safe_name
safe_name_kept s h =
    ap (λ u. or_target (name_chars 96 (runes u))) (trim_space-all s h.kept)
    ∙ ap (λ u. or_target (name_chars 96 u)) (runes-ascii s (ascii-all s h.kept))
    ∙ ap or_target (name_chars-all 96 s h.short h.kept)
    ∙ or_target_set s h.given

pub record IsName (s : Text) : Type 0 where
  pub given : is_set s ≡ true
  pub short : leb (length s) 96 ≡ true
  pub plain : all is_plain s ≡ true
  pub stable : safe_name s ≡ s

-- Whatever a target is called, the name that it is stored under is not empty, has at most 96 bytes, all
-- of them visible ASCII and none a slash, a backslash or a colon, and is its own stored name.
pub safe_name-IsName : (value : Text) → IsName (safe_name value)
safe_name-IsName value =
    let h = safe_name-IsKept value in
    record {
      given = h.given;
      short = h.short;
      plain = plain-all (safe_name value) h.kept;
      stable = safe_name_kept (safe_name value) h;
    }
