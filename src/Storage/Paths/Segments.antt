-- ===== src/Storage/Paths/Segments.antt =====
-- internal/storage/path.go: the segments of the paths and names that the functions let through.
use pooly_sentinel.Prelude.{
  ◌≡◌, ◌⊎◌, inl, refl, Bool, true, false, not, ◌&&◌, ◌||◌, Option, none, some, List, [], ◌∷◌, Text,
  text, text_eq, contains, has_prefix, trim_space, ◌==◌, all, if◌then◌else◌, arith,
}
use pooly_sentinel.Redaction.{Patterns}
use pooly_sentinel.Storage.Paths.{
  Filepath, has_suffix, rel_escapes, clean_relative, under_root, safe_trimmed, safe_evidence_path,
}

-- A path split at its slashes: the first segment, and the others.
unfoldable pub split : Text → Text × List Text
split [] = ([], [])
split (c ∷ s) =
    let (first, rest) = split s in if c == b'/' then ([], first ∷ rest) else (c ∷ first, rest)

unfoldable pub is_up : Text → Bool
unfolding text_eq text
is_up segment = text_eq segment (text "..")

-- No segment of a path is "..".
abbrev pub stays_down : Text → Bool
stays_down s = let (first, rest) = split s in not (is_up first) && all (λ seg. not (is_up seg)) rest

-- The first segment is ".." only in a path that starts with it.
first_up :
    (s : Text)
    → is_up (split s).0 ≡ true
    → (text_eq s (text "..") || has_prefix s (text "../")) ≡ true
unfolding split is_up text text_eq has_prefix
first_up [] h = ground arith
first_up (a ∷ []) h = ground arith
first_up (a ∷ b ∷ []) h = ground arith
first_up (a ∷ b ∷ c ∷ s) h = ground arith

-- A later segment is ".." only after a slash, before another one or the end.
later_up :
    (s : Text)
    → contains s (text "/../") ≡ false
    → has_suffix s (text "/..") ≡ false
    → all (λ seg. not (is_up seg)) (split s).1 ≡ true
unfolding split text text_eq has_prefix contains has_suffix
later_up [] h k = refl
later_up (c ∷ s) h k = ground (arith, later_up s, first_up s)

module _ (f : Filepath) where
  rel_escapes-stays_down : (s : Text) → rel_escapes f s ≡ false → stays_down s ≡ true
  unfolding rel_escapes
  rel_escapes-stays_down s h = ground (arith, later_up s, first_up s)

  -- A path that may be shown: there is none, or it is relative and no segment of it is "..".
  abbrev pub IsContained : Text → Type 0
  IsContained out = (out ≡ []) ⊎ ((f.is_abs out ≡ false) × (stays_down out ≡ true))

  clean_relative-IsContained : (s : Text) → IsContained (clean_relative f s)
  unfolding clean_relative
  clean_relative-IsContained s = ground (arith, rel_escapes-stays_down (f.clean s))

  under_root-IsContained : (rel : Option Text) → IsContained (under_root f rel)
  unfolding under_root
  under_root-IsContained none = inl refl
  under_root-IsContained (some rel) = ground (arith, clean_relative-IsContained rel)

  -- Whatever the evidence path and the root, the path shown is empty, or it is relative and has no
  -- segment "..".
  pub safe_evidence_path-IsContained :
      (p : Patterns) (path root : Text) → IsContained (safe_evidence_path f p path root)
  unfolding safe_evidence_path safe_trimmed
  safe_evidence_path-IsContained p path root =
      let path' = trim_space path in
      ground (
        arith,
        clean_relative-IsContained path',
        under_root-IsContained (f.rel (f.clean (trim_space root)) (f.clean path')),
      )
