-- ===== src/Store/Effects.antt =====
-- What the store promises of a write and of a removal.
use kyb.Common.{
  codes, ◌++◌, true, false, ◌&&◌, ◌≡◌, ◌≢◌, ◌⊎◌, refl, ap, ◌∙◌, inl, inr, none, some, Text, eq_refl,
  ok, Bool-cases, Option-cases, arith,
}
use kyb.Entry.{Entry, is_valid_key}
use kyb.Entry.Comparing.{same_content}
use kyb.Entry.Markdown.{Yaml}
use kyb.Store.{
  Repo, UpsertOutcome, unchanged, file_rel, legacy_rel, existing_rel, parsed, get, upsert,
  commit_removal, remove_file, delete, archive,
}
use kyb.Store.Paths.{is_valid_key-no_slash, key_of_path-file_rel, key_of_path-legacy_rel}
use kyb.Store.Removing.{Removed, removed_file, Removed-other}
use kyb.Store.Writing.{Files, ReadBack, upsert-Written, Written-get, Written-other}

module _ (yaml : Yaml) (repo : Repo) (files : Files repo) where
  upsert_again :
      (e x : Entry) (later : Text) (r : Repo.State repo)
      → get yaml repo e.key r ≡ ok (some x)
      → same_content x e ≡ true
      → upsert yaml repo e later r ≡ (ok (unchanged x), r)
  unfolding upsert
  upsert_again e x later r g s = rw (g, s) refl

  -- Where a file is read back with the content that was written, a write of a valid entry that
  -- succeeds leaves an entry with its content under its key and every other valid key as it was; and
  -- writing the entry again, whenever, changes nothing.
  pub upsert_lem :
      (e back : Entry) (today : Text) (r r' : Repo.State repo) (o : UpsertOutcome)
      → is_valid_key e.key ≡ true
      → ReadBack yaml repo files (record e { updated_at = today }) back
      → same_content back e ≡ true
      → upsert yaml repo e today r ≡ (ok o, r')
      → ((x : Entry) × (get yaml repo e.key r' ≡ ok (some x))
          × (same_content x e ≡ true)
          × ((later : Text) → upsert yaml repo e later r' ≡ (ok (unchanged x), r')))
        × ((j : Text) → is_valid_key j ≡ true → e.key ≢ j → get yaml repo j r' ≡ get yaml repo j r)
  upsert_lem e back today r r' o v reads same h =
      elim (upsert-Written yaml repo files e today r r' o h) [
        | inl (old, found, s, _, still) ↦
            let found' = ap (get yaml repo e.key) still ∙ found in
            (
              (old, found', s, λ later. upsert_again e old later r' found' s),
              λ j u ne. ap (get yaml repo j) still,
            )
        | inr w ↦
            let found =
              Written-get yaml repo files (record e { updated_at = today }) r r' w
              ∙ rw (parsed, reads) refl in
            (
              (back, found, same, λ later. upsert_again e back later r' found same),
              λ j u ne.
                  Written-other yaml repo files (record e { updated_at = today }) r r' j w v u ne,
            )
      ]

  removed :
      (rel msg sha : Text) (r r' : Repo.State repo)
      → commit_removal yaml repo rel msg (repo.remove rel r) r ≡ (ok (some sha), r')
      → Removed yaml repo files rel r r'
  removed rel msg sha r r' h = elim (Option-cases (repo.remove rel r)) [
    | inl n ↦ let h' = (rw n at h) in ground (arith, h')
    | inr (r1, gone) ↦
        removed_file yaml repo files rel msg r r1 r' (ok (some sha)) gone (rw gone at h)
  ]

  -- What is removed is a file of the key, the present one if there is one.
  remove_file-Removed :
      (k msg sha : Text) (r r' : Repo.State repo)
      → remove_file yaml repo k msg r ≡ (ok (some sha), r')
      → ((repo.is_file r (file_rel k) ≡ true) × Removed yaml repo files (file_rel k) r r')
        ⊎ ((repo.is_file r (file_rel k) ≡ false) × Removed yaml repo files (legacy_rel k) r r')
  unfolding remove_file existing_rel
  remove_file-Removed k msg sha r r' h = elim (Bool-cases (repo.is_file r (file_rel k))) [
    | inl e ↦ inl (e, removed _ _ sha r r' (rw e at h))
    | inr n ↦ elim (Bool-cases (repo.is_file r (legacy_rel k))) [
      | inl e ↦ inr (n, removed _ _ sha r r' (rw (n, e) at h))
      | inr m ↦ let h' = (rw (n, m) at h) in ground (arith, h')
    ]
  ]

  not_filed :
      (k : Text) (r : Repo.State repo)
      → repo.is_file r (file_rel k) ≡ false
      → repo.is_file r (legacy_rel k) ≡ false
      → get yaml repo k r ≡ ok none
  unfolding get existing_rel
  not_filed k r a b = rw (a, b) refl

  pub remove_file_lem :
      (k msg sha : Text) (r r' : Repo.State repo)
      → is_valid_key k ≡ true
      → (repo.is_file r (file_rel k) && repo.is_file r (legacy_rel k)) ≡ false
      → remove_file yaml repo k msg r ≡ (ok (some sha), r')
      → (get yaml repo k r' ≡ ok none)
        × ((j : Text) → is_valid_key j ≡ true → k ≢ j → get yaml repo j r' ≡ get yaml repo j r)
  remove_file_lem k msg sha r r' v one h =
      let plain = is_valid_key-no_slash k v in
      elim (remove_file-Removed k msg sha r r' h) [
        | inl (e, d) ↦ (
          not_filed k r' (d.is_file (file_rel k) ∙ rw (eq_refl (file_rel k)) refl)
              (d.is_file (legacy_rel k) ∙ ground (arith, one, e)),
          λ j u ne.
              Removed-other yaml repo files (file_rel k) k j r r' (key_of_path-file_rel k plain) u
                ne d,
        )
        | inr (n, d) ↦ (
          not_filed k r' (d.is_file (file_rel k) ∙ ground (arith, n))
              (d.is_file (legacy_rel k) ∙ rw (eq_refl (legacy_rel k)) refl),
          λ j u ne.
              Removed-other yaml repo files (legacy_rel k) k j r r' (key_of_path-legacy_rel k plain)
                u ne d,
        )
      ]

  -- An archival of a valid key that succeeds, where the key has one file, leaves nothing under the
  -- key, and every other valid key as it was.
  pub archive_lem :
      (k sha : Text) (r r' : Repo.State repo)
      → is_valid_key k ≡ true
      → (repo.is_file r (file_rel k) && repo.is_file r (legacy_rel k)) ≡ false
      → archive yaml repo k r ≡ (ok (some sha), r')
      → (get yaml repo k r' ≡ ok none)
        × ((j : Text) → is_valid_key j ≡ true → k ≢ j → get yaml repo j r' ≡ get yaml repo j r)
  unfolding archive
  archive_lem k sha r r' v one h = remove_file_lem k (codes "kyb: archive " ++ k) sha r r' v one h

  pub delete_lem :
      (k sha : Text) (r r' : Repo.State repo)
      → is_valid_key k ≡ true
      → (repo.is_file r (file_rel k) && repo.is_file r (legacy_rel k)) ≡ false
      → delete yaml repo k r ≡ (ok (some sha), r')
      → (get yaml repo k r' ≡ ok none)
        × ((j : Text) → is_valid_key j ≡ true → k ≢ j → get yaml repo j r' ≡ get yaml repo j r)
  unfolding delete
  delete_lem k sha r r' v one h = remove_file_lem k (codes "kyb: delete " ++ k) sha r r' v one h
