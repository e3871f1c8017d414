-- ===== src/Filewatch/Snapshots/Reading.antt =====
-- internal/collectors/filewatch/baseline.go, `SnapshotTarget`: the reading that a hash of contents is made
-- from.
use pooly_sentinel.Prelude.{
  negsuc, ◌≡◌, refl, ap, sym, ◌∙◌, ℕ, ◌+◌, ◌<◌, ℤ, pos, leb_ℤ, eq_ℤ, eq_ℤ_sound, Bool, true, false,
  not, ◌&&◌, ◌||◌, Option, none, some, [], Text, text, length, and_true, arith, ◌==◌, if◌then◌else◌,
}
use pooly_sentinel.Effect.{
  Result, ok, err, Exec, continue, ◌>>=◌, ◌>>◌, pure, raise, message, Context, check_context,
  ok_injective,
}
use pooly_sentinel.Filewatch.Types.{
  FileKind, regular, symlink, directory, other, Stat, FileInfo, OpenedFile, FileSource, Packages,
}
use pooly_sentinel.Filewatch.Snapshots.{
  is_regular, same_kind, same_object, one_more, read_opened, closing, read_bounded_regular,
}

-- Two descriptions of one object: of one inode of one device, or, where a description has no inode, of one
-- kind, size and instant of modification.
pub data IsSame (a b : FileInfo) : Type 0 where
  by_inode :
      (x y : Stat) → a.stat ≡ some x → b.stat ≡ some y → x.dev ≡ y.dev → x.ino ≡ y.ino → IsSame a b
  by_looks : a.kind ≡ b.kind → a.size ≡ b.size → a.mod_time ≡ b.mod_time → IsSame a b

module _ {S A B : Type 0} where
  -- A chain that succeeds has succeeded in its first step.
  pub bind-ok :
      (m : Exec S A) (f : A → Exec S B) (s s' : S) (b : B)
      → (m >>= f) s ≡ (ok b, s')
      → (a : A) × (t : S) × (m s ≡ (ok a, t)) × (f a t ≡ (ok b, s'))
  bind-ok m f s s' b h = at (m s) refl h
    where
      at :
          (out : Result A × S)
          → m s ≡ out
          → continue out.0 f out.1 ≡ (ok b, s')
          → (a : A) × (t : S) × (m s ≡ (ok a, t)) × (f a t ≡ (ok b, s'))
      at (ok a, t) e k = (a, t, e, k)
      at (err x, t) e k = cc

same_kind_sound : (a b : FileKind) → same_kind a b ≡ true → a ≡ b
unfolding same_kind
same_kind_sound symlink symlink h = refl
same_kind_sound regular regular h = refl
same_kind_sound directory directory h = refl
same_kind_sound (other m) (other n) h = ground arith
same_kind_sound _ _ h = cc

looks-IsSame :
    (a b : FileInfo)
    → same_kind a.kind b.kind && eq_ℤ a.size b.size && a.mod_time == b.mod_time ≡ true
    → IsSame a b
looks-IsSame a b h =
    let (first, times) =
      and_true (same_kind a.kind b.kind && eq_ℤ a.size b.size) (a.mod_time == b.mod_time) h in
    let (kinds, sizes) = and_true (same_kind a.kind b.kind) (eq_ℤ a.size b.size) first in
    by_looks (same_kind_sound a.kind b.kind kinds) (eq_ℤ_sound a.size b.size sizes) (ground arith)

same_object_sound : (a b : FileInfo) → same_object a b ≡ true → IsSame a b
unfolding same_object
same_object_sound a b h = at a.stat refl b.stat refl h
  where
    at :
        (u : Option Stat)
        → a.stat ≡ u
        → (v : Option Stat) → b.stat ≡ v
        → (elim u as (λ _. Bool) [
          | none ↦ same_kind a.kind b.kind && eq_ℤ a.size b.size && a.mod_time == b.mod_time
          | some x ↦ (elim v as (λ _. Bool) [
            | none ↦ same_kind a.kind b.kind && eq_ℤ a.size b.size && a.mod_time == b.mod_time
            | some y ↦ x.dev == y.dev && x.ino == y.ino
          ])
        ])
          ≡ true
        → IsSame a b
    at none e v e' k = looks-IsSame a b k
    at (some x) e none e' k = looks-IsSame a b k
    at (some x) e (some y) e' k =
        let (devices, inodes) = and_true (x.dev == y.dev) (x.ino == y.ino) k in
        by_inode x y e e' (ground arith) (ground arith)

pub regular_sound : (k : FileKind) → is_regular k ≡ true → k ≡ regular
unfolding is_regular
regular_sound regular h = refl
regular_sound symlink h = cc
regular_sound directory h = cc
regular_sound (other n) h = cc

module _ {S : Type 0} (ctx : Context S) (source : FileSource S) where
  -- A run that opens the regular file that `initial` describes and reads its bytes to their end, in one
  -- read of at most `limit` bytes that is shorter.
  pub record IsReading (path : Text) (initial : FileInfo) (s s' : S) (bytes : Text) : Type 0 where
    pub opened : OpenedFile S
    pub now : FileInfo
    pub limit : ℕ
    pub s₁ : S
    pub s₂ : S
    pub s₃ : S
    pub s₄ : S
    pub s₅ : S
    pub s₆ : S
    pub live_at_open : check_context ctx s ≡ (ok tt, s₁)
    pub opens : source.open_no_follow path s₁ ≡ (ok (some opened), s₂)
    pub describes : opened.stat s₂ ≡ (ok now, s₃)
    pub plain : now.kind ≡ regular
    pub same : IsSame initial now
    pub live_before : check_context ctx s₃ ≡ (ok tt, s₄)
    pub reads : opened.read (pos limit) s₄ ≡ (ok bytes, s₅)
    pub whole : length bytes < limit
    pub live_after : check_context ctx s₅ ≡ (ok tt, s₆)
    pub closes : opened.close s₆ ≡ s'

  -- From the first poll after `opened.Stat()` on.
  abbrev read_rest : OpenedFile S → ℤ → Exec S (Text × Bool)
  read_rest opened n = do
    check_context ctx
    bytes ← opened.read n
    check_context ctx
    pure (bytes, false)

  module _ (pk : Packages) (path : Text) (initial : FileInfo) (max_bytes : ℤ) (bytes : Text)
      (fits : leb_ℤ (pos (length bytes)) max_bytes ≡ true) where
    at_most :
        (n : ℤ)
        → leb_ℤ (pos (length bytes)) n ≡ true
        → (m : ℕ) × (one_more n ≡ pos m) × (length bytes < m)
    unfolding one_more
    at_most (pos n) h = (n + 1, refl, ground arith)
    at_most (negsuc n) h = absurd (ground arith)

    bytes_reading :
        (opened : OpenedFile S) (s₃ t : S)
        → read_rest opened (one_more max_bytes) s₃ ≡ (ok (bytes, false), t)
        → (limit : ℕ) × (s₄ : S) × (s₅ : S) × (check_context ctx s₃ ≡ (ok tt, s₄))
          × (opened.read (pos limit) s₄ ≡ (ok bytes, s₅))
          × (length bytes < limit)
          × (check_context ctx s₅ ≡ (ok tt, t))
    bytes_reading opened s₃ t h =
        let (limit, is_limit, short) = at_most max_bytes fits in
        let (u, s₄, live, after) = bind-ok (check_context ctx) _ s₃ t (bytes, false) h in
        let (got, s₅, read, last) =
          bind-ok (opened.read (one_more max_bytes)) _ s₄ t (bytes, false) after in
        let (v, s₆, live', done) = bind-ok (check_context ctx) _ s₅ t (bytes, false) last in
        let same_bytes = ap (λ o. o.0) (ok_injective (ap (λ out. out.0) done)) in
        let same_state = ap (λ out. out.1) done in
        (
          limit,
          s₄,
          s₅,
          live,
          rw (sym is_limit) (read ∙ ap (λ b. (ok b, s₅)) same_bytes),
          short,
          live' ∙ ap (λ x. (ok tt, x)) same_state,
        )

    read_opened-IsReading :
        (opened : OpenedFile S) (s s₁ s₂ s' : S)
        → check_context ctx s ≡ (ok tt, s₁)
        → source.open_no_follow path s₁ ≡ (ok (some opened), s₂)
        → closing opened (read_opened pk ctx source opened initial max_bytes) s₂
          ≡ (ok (bytes, false), s')
        → IsReading path initial s s' bytes
    unfolding closing read_opened
    read_opened-IsReading opened s s₁ s₂ s' live opens h =
        let t = (read_opened pk ctx source opened initial max_bytes s₂).1 in
        let (now, s₃, describes, rest) =
          bind-ok opened.stat _ s₂ t (bytes, false) (ap (λ out. (out.0, t)) h) in
        at now s₃ describes (is_regular now.kind) refl (same_object initial now) refl rest
      where
        at :
            (now : FileInfo) (s₃ : S)
            → opened.stat s₂ ≡ (ok now, s₃)
            → (plain : Bool) → is_regular now.kind ≡ plain
            → (same : Bool) → same_object initial now ≡ same
            → (if not plain || not same
                  then pure ([], true)
                  else read_rest opened (one_more max_bytes))
                s₃
              ≡ (ok (bytes, false), (read_opened pk ctx source opened initial max_bytes s₂).1)
            → IsReading path initial s s' bytes
        at now s₃ describes false e same e' k = cc
        at now s₃ describes true e false e' k = cc
        at now s₃ describes true e true e' k =
            let (limit, s₄, s₅, before, reads, whole, after) = bytes_reading opened s₃ _ k in
            record {
              opened = opened;
              now = now;
              limit = limit;
              s₁ = s₁;
              s₂ = s₂;
              s₃ = s₃;
              s₄ = s₄;
              s₅ = s₅;
              s₆ = (read_opened pk ctx source opened initial max_bytes s₂).1;
              live_at_open = live;
              opens = opens;
              describes = describes;
              plain = regular_sound now.kind e;
              same = same_object_sound initial now e';
              live_before = before;
              reads = reads;
              whole = whole;
              live_after = after;
              closes = ap (λ out. out.1) h;
            }

    pub reading :
        (s s' : S)
        → read_bounded_regular pk ctx source path initial max_bytes s ≡ (ok (bytes, false), s')
        → IsReading path initial s s' bytes
    unfolding read_bounded_regular
    reading s s' h =
        let (u, s₁, live, after) = bind-ok (check_context ctx) _ s s' (bytes, false) h in
        let (found, s₂, opens, rest) =
          bind-ok (source.open_no_follow path) _ s₁ s' (bytes, false) after in
        at found s₁ s₂ live opens rest
      where
        at :
            (found : Option (OpenedFile S)) (s₁ s₂ : S)
            → check_context ctx s ≡ (ok tt, s₁)
            → source.open_no_follow path s₁ ≡ (ok found, s₂)
            → (elim found as (λ _. Exec S (Text × Bool)) [
              | none ↦ raise (message (text "open returned nil file"))
              | some opened ↦ closing opened (read_opened pk ctx source opened initial max_bytes)
            ])
                s₂
              ≡ (ok (bytes, false), s')
            → IsReading path initial s s' bytes
        at none s₁ s₂ live opens k = cc
        at (some opened) s₁ s₂ live opens k = read_opened-IsReading opened s s₁ s₂ s' live opens k
