-- ===== src/Filewatch/Manifest.antt =====
-- internal/collectors/filewatch/hash.go.
use pooly_sentinel.Prelude.{
  ℕ, ℤ, pos, negsuc, pos_part, leb_ℤ, Bool, none, some, List, [], ◌∷◌, Text, text, text_leb, join,
  take, sort_by, length, ltb, if◌then◌else◌,
}
use pooly_sentinel.Effect.{ok, err, message, Exec, pure, ◌>>=◌}
use pooly_sentinel.Incidents.Fingerprint.{encode_hex}
use pooly_sentinel.Filewatch.Types.{FileInfo, DirEntry, Packages, file_type}

-- `owner`: -1 and -1 where there is no `Stat_t`.
unfoldable pub owner : FileInfo → ℤ × ℤ
owner info = elim info.stat [ none ↦ (negsuc 0, negsuc 0) | some st ↦ (pos st.uid, pos st.gid) ]

module _ (pk : Packages) where
  unfoldable pub hash_bytes : Text → Text
  unfolding encode_hex
  hash_bytes bytes = encode_hex (pk.sum256 bytes)

  -- The line of an entry.
  unfoldable pub manifest_line : Text → FileInfo → Text
  unfolding file_type owner join text
  manifest_line name info =
      join
        (name
          ∷ file_type info.kind
          ∷ info.perm
          ∷ pk.format_int info.size
          ∷ pk.format_int (pk.unix_nano info.mod_time)
          ∷ pk.format_int (owner info).0
          ∷ pk.format_int (owner info).1
          ∷ [])
        (9 ∷ [])

  -- The loop over the entries.
  unfoldable pub manifest_lines : {S : Type 0} → List (DirEntry S) → Exec S (List Text)
  unfolding manifest_line text
  manifest_lines [] s = (ok [], s)
  manifest_lines (e ∷ es) s =
      let rest = manifest_lines es in
      let (r, s') = e.info s in
      elim r [
        | err x ↦ (err (message (text "directory entry info failed")), s')
        | ok info ↦ (rest >>= λ lines. pure (manifest_line e.name info ∷ lines)) s'
      ]

  -- The hash of the first lines in order, how many there are, and whether some were left out.
  unfoldable pub manifest_of : ℕ → List Text → Text × ℤ × Bool
  unfolding hash_bytes text_leb join
  manifest_of limit lines =
      let parts = sort_by text_leb lines in
      (
        hash_bytes (join (if ltb limit (length parts) then take limit parts else parts) (10 ∷ [])),
        pos (length parts),
        ltb limit (length parts),
      )

  -- `maxEntries`, with its default.
  unfoldable pub entry_limit_or : ℤ → ℕ
  entry_limit_or max_entries = if leb_ℤ max_entries (pos 0) then 256 else pos_part max_entries

  unfoldable pub manifest_hash : {S : Type 0} → List (DirEntry S) → ℤ → Exec S (Text × ℤ × Bool)
  unfolding manifest_lines manifest_of entry_limit_or
  manifest_hash entries max_entries =
      manifest_lines entries >>= λ lines. pure (manifest_of (entry_limit_or max_entries) lines)
