-- ===== src/Follow/Latest.antt =====
-- `GetLatestFile` of internal/utils/utils.go.
use hyperliquid_exporter.Follow.{FileInfo, walk_latest, get_latest_file}
use hyperliquid_exporter.Base.{
  ℕ, ◌<◌, ◌++◌, ap, has, ◌≡◌, refl, sym, ◌⊎◌, inl, inr, Bool, true, false, not, ◌&&◌, ◌||◌, Option,
  none, some, List, [], ◌∷◌, arith, ltb, leb, Bool-cases, Bytes, All,
}

-- An entry that is no file, or a file not modified after a time; an error is none.
unfoldable pub is_within : ℕ → Option FileInfo → Bool
is_within t none = false
is_within t (some e) = e.is_dir || leb e.mod_time t

-- The same with files modified before a time.
unfoldable pub is_before : ℕ → Option FileInfo → Bool
is_before t none = false
is_before t (some e) = e.is_dir || ltb e.mod_time t

-- The file that a walk keeps: the first file modified after the given time such that all files
-- before it are older and none after it is newer; or the one it started with, if no file is
-- modified after the time.
abbrev pub FirstNewest : ℕ → Bytes → List (Option FileInfo) → Bytes → Type 0
FirstNewest time file entries r =
    ((r ≡ file) × All (λ e. is_within time e ≡ true) entries)
    ⊎ ((before : List (Option FileInfo)) × (e : FileInfo) × (after : List (Option FileInfo))
        × (entries ≡ before ++ some e ∷ after)
        × (e.is_dir ≡ false)
        × (e.path ≡ r)
        × (time < e.mod_time)
        × All (λ x. is_before e.mod_time x ≡ true) before
        × All (λ x. is_within e.mod_time x ≡ true) after)

walk_latest-FirstNewest :
    (time : ℕ) (file : Bytes) (entries : List (Option FileInfo))
    → All (λ e. has e ≡ true) entries
    → (r : Bytes) × (walk_latest time file entries ≡ some r) × FirstNewest time file entries r
unfolding walk_latest is_within is_before has
walk_latest-FirstNewest time file [] h = (file, refl, inl (refl, tt))
walk_latest-FirstNewest time file (none ∷ entries) h = absurd (ground (arith, h.0))
walk_latest-FirstNewest time file (some e ∷ entries) h =
    elim (Bool-cases (not e.is_dir && ltb time e.mod_time)) [
      | inl newer ↦
          let (r, returned, kept) = walk_latest-FirstNewest e.mod_time e.path entries h.1 in
          (
            r,
            rw newer returned,
            elim kept [
              | inl (same, none_newer) ↦ inr (
                [],
                e,
                entries,
                refl,
                ground (arith, newer),
                sym same,
                ground (arith, newer),
                tt,
                none_newer,
              )
              | inr (before, f, after, split, is_file, path, later, older, rest) ↦ inr (
                some e ∷ before,
                f,
                after,
                ap (◌∷◌ (some e)) split,
                is_file,
                path,
                ground (arith, newer, later),
                (ground (arith, later), older),
                rest,
              )
            ],
          )
      | inr old ↦
          let (r, returned, kept) = walk_latest-FirstNewest time file entries h.1 in
          (
            r,
            rw old returned,
            elim kept [
              | inl (same, none_newer) ↦ inl (same, (ground (arith, old), none_newer))
              | inr (before, f, after, split, is_file, path, later, older, rest) ↦ inr (
                some e ∷ before,
                f,
                after,
                ap (◌∷◌ (some e)) split,
                is_file,
                path,
                later,
                (ground (arith, old, later), older),
                rest,
              )
            ],
          )
    ]

-- If the walk meets no error, `GetLatestFile` returns a name: that of the first of the files with
-- the newest modification time, which is after zero, so that every file before it is older and no
-- file after it is newer; or the empty name, and then no file has a time after zero.
pub get_latest_file-FirstNewest :
    (entries : List (Option FileInfo))
    → All (λ e. has e ≡ true) entries
    → (r : Bytes) × (get_latest_file entries ≡ some r) × FirstNewest 0 [] entries r
unfolding get_latest_file
get_latest_file-FirstNewest entries h = walk_latest-FirstNewest 0 [] entries h

walk_latest_dirs :
    (file : Bytes) (time : ℕ) (entries : List (Option FileInfo))
    → All (λ e. (d : FileInfo) × (e ≡ some d) × (d.is_dir ≡ true)) entries
    → walk_latest time file entries ≡ some file
unfolding walk_latest
walk_latest_dirs file time [] a = refl
walk_latest_dirs file time (e ∷ entries) a =
    let (d, same, dir) = a.0 in rw (same, dir) (walk_latest_dirs file time entries a.1)

pub get_latest_file_dirs :
    (entries : List (Option FileInfo))
    → All (λ e. (d : FileInfo) × (e ≡ some d) × (d.is_dir ≡ true)) entries
    → get_latest_file entries ≡ some []
unfolding get_latest_file
get_latest_file_dirs entries a = walk_latest_dirs [] 0 entries a
