-- ===== src/Filewatch/Names.antt =====
-- internal/collectors/filewatch/baseline.go: the names of targets, and the paths of private keys.
pub mod Safe
use pooly_sentinel.Prelude.{
  ℕ, runes, zero, suc, ◌+◌, Bool, true, false, not, ◌&&◌, ◌||◌, List, [], ◌∷◌, Text, text, is_empty,
  trim_space, to_lower, has_prefix, contains, length, ltb, leb, ◌==◌, if◌then◌else◌,
}
use pooly_sentinel.Filewatch.Types.{Packages, Target}

-- The characters that a name may have: a-z, A-Z, 0-9, "_", "-" and ".".
unfoldable pub is_name_char : ℕ → Bool
is_name_char c =
    leb 97 c && leb c 122
    || leb 65 c && leb c 90
    || leb 48 c && leb c 57
    || c == 95
    || c == 45
    || c == 46

-- The loop of `safeName` over the characters, with the bytes that the builder may still take.
unfoldable pub name_chars : ℕ → Text → Text
unfolding is_name_char
name_chars zero s = []
name_chars (suc room) [] = []
name_chars (suc room) (c ∷ s) = elim (is_name_char c) [
  | true ↦ c ∷ name_chars room s
  | false ↦ name_chars (suc room) s
]

unfoldable pub or_target : Text → Text
unfolding text
or_target s = if is_empty s then text "target" else s

unfoldable pub safe_name : Text → Text
unfolding trim_space runes name_chars or_target
safe_name value = or_target (name_chars 96 (runes (trim_space value)))

module _ (pk : Packages) where
  unfoldable pub target_name : Target → Text
  unfolding safe_name
  target_name t =
      if not (is_empty t.name) then safe_name t.name else safe_name (pk.base (pk.clean t.path))

  unfoldable pub looks_private_key_path : Text → Bool
  unfolding to_lower has_prefix contains text
  looks_private_key_path path =
      let base = to_lower (pk.base path) in
      has_prefix base (text "id_")
      || contains base (text "private_key")
      || contains base (text ".pem")
