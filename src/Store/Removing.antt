-- ===== src/Store/Removing.antt =====
-- What a removal leaves alone, whether it succeeds or not.
use kyb.Common.{
  refl, false, ◌==◌, not, ◌&&◌, true, ◌≡◌, ◌≢◌, ◌⊎◌, sym, ap, ◌∙◌, inl, inr, Option, some, Text,
  Result, Bool-cases, Option-cases, arith,
}
use kyb.Entry.{is_valid_key}
use kyb.Entry.Markdown.{Yaml}
use kyb.Store.{
  Repo, StoreError, file_rel, legacy_rel, key_of_path, existing_rel, get, commit_removal,
  remove_file, archive,
}
use kyb.Store.Paths.{
  path-other, is_valid_key-no_slash, key_of_path-file_rel, key_of_path-legacy_rel,
}
use kyb.Store.Writing.{Files, get-same}

module _ (yaml : Yaml) (repo : Repo) (files : Files repo) where
  -- The file of a key that is removed, and the state after its removal.
  pub record Removed (rel : Text) (r r' : Repo.State repo) : Type 0 where
    pub is_file : (q : Text) → repo.is_file r' q ≡ (not (rel == q) && repo.is_file r q)
    pub read : (q : Text) → rel == q ≡ false → repo.read r' q ≡ repo.read r q

  pub Removed-other :
      (rel k j : Text) (r r' : Repo.State repo)
      → key_of_path rel ≡ some k
      → is_valid_key j ≡ true
      → k ≢ j
      → Removed rel r r'
      → get yaml repo j r' ≡ get yaml repo j r
  Removed-other rel k j r r' of u ne d =
      let j_plain = is_valid_key-no_slash j u in
      let apart = path-other rel (file_rel j) k j of (key_of_path-file_rel j j_plain) ne in
      let apart_old = path-other rel (legacy_rel j) k j of (key_of_path-legacy_rel j j_plain) ne in
      get-same yaml repo files j r r' (d.is_file (file_rel j) ∙ rw apart refl)
        (d.is_file (legacy_rel j) ∙ rw apart_old refl) (d.read (file_rel j) apart)
        (d.read (legacy_rel j) apart_old)

  pub removed_file :
      (rel msg : Text) (r r1 r' : Repo.State repo) (out : Result StoreError (Option Text))
      → repo.remove rel r ≡ some r1
      → commit_removal yaml repo rel msg (some r1) r ≡ (out, r')
      → Removed rel r r'
  removed_file rel msg r r1 r' out gone h = elim (Option-cases (repo.commit_path rel msg r1)) [
    | inl n ↦
        let h' = (rw (commit_removal, n) at h) in
        let last : r1 ≡ r' = ground (arith, h') in
        let gone' = gone ∙ ap some last in
        record {
          is_file = λ q. files.is_file-remove rel q r r' gone';
          read = λ q ne. files.read-remove rel q r r' gone' ne;
        }
    | inr ((c, r''), s) ↦
        let h' = (rw (commit_removal, s) at h) in
        let last : r'' ≡ r' = ground (arith, h') in
        let committed = s ∙ ap (λ z. some (c, z)) last in
        record {
          is_file = λ q.
              files.is_file-commit rel msg q r1 c r' committed
              ∙ files.is_file-remove rel q r r1 gone;
          read = λ q ne.
              files.read-commit rel msg q r1 c r' committed ∙ files.read-remove rel q r r1 gone ne;
        }
  ]

  removal :
      (rel msg : Text) (r r' : Repo.State repo) (out : Result StoreError (Option Text))
      → commit_removal yaml repo rel msg (repo.remove rel r) r ≡ (out, r')
      → (r ≡ r') ⊎ Removed rel r r'
  removal rel msg r r' out h = elim (Option-cases (repo.remove rel r)) [
    | inl n ↦ let h' = (rw n at h) in inl (ground (arith, h'))
    | inr (r1, gone) ↦ inr (removed_file rel msg r r1 r' out gone (rw gone at h))
  ]

  removal-other :
      (rel msg k j : Text) (r r' : Repo.State repo) (out : Result StoreError (Option Text))
      → key_of_path rel ≡ some k
      → is_valid_key j ≡ true
      → k ≢ j
      → commit_removal yaml repo rel msg (repo.remove rel r) r ≡ (out, r')
      → get yaml repo j r' ≡ get yaml repo j r
  removal-other rel msg k j r r' out of u ne h = elim (removal rel msg r r' out h) [
    | inl same ↦ ap (get yaml repo j) (sym same)
    | inr d ↦ Removed-other rel k j r r' of u ne d
  ]

  pub archive-other :
      (k j : Text) (r r' : Repo.State repo) (out : Result StoreError (Option Text))
      → is_valid_key k ≡ true
      → is_valid_key j ≡ true
      → k ≢ j
      → archive yaml repo k r ≡ (out, r')
      → get yaml repo j r' ≡ get yaml repo j r
  unfolding archive remove_file existing_rel
  archive-other k j r r' out v u ne h =
      let plain = is_valid_key-no_slash k v in
      elim (Bool-cases (repo.is_file r (file_rel k))) [
        | inl e ↦
            removal-other (file_rel k) _ k j r r' out (key_of_path-file_rel k plain) u ne
              (rw e at h)
        | inr n ↦ elim (Bool-cases (repo.is_file r (legacy_rel k))) [
          | inl e ↦
              removal-other (legacy_rel k) _ k j r r' out (key_of_path-legacy_rel k plain) u ne
                (rw (n, e) at h)
          | inr m ↦
              let h' = (rw (n, m) at h) in
              let same : r ≡ r' = ground (arith, h') in ap (get yaml repo j) (sym same)
        ]
      ]
