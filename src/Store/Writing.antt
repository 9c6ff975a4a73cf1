-- ===== src/Store/Writing.antt =====
-- What a write and an archival do to the entries that are read.
use kyb.Common.{
  Bool, true, false, not, ◌&&◌, ◌||◌, ◌≡◌, ◌≢◌, ◌⊎◌, refl, ap, ◌∙◌, inl, inr, Option, none, some,
  Text, codes, ◌++◌, ◌==◌, eq_refl, if◌then◌else◌, Result, ok, err, Bool-cases, Option-cases, arith,
}
use kyb.Entry.{Entry, is_valid_key}
use kyb.Entry.Comparing.{same_content}
use kyb.Entry.Markdown.{Yaml, from_markdown, to_markdown}
use kyb.Store.{
  Commit, Repo, StoreError, UpsertOutcome, unchanged, file_rel, legacy_rel, existing_rel, parsed,
  get, outcome, commit_write, after_write, write_entry, upsert_over, upsert,
}
use kyb.Store.Paths.{is_valid_key-no_slash, file_rel-other, file_rel-legacy}

-- What is documented of the file system and of a commit: a file is what was written last, and a
-- commit leaves the files alone.
pub record Files (repo : Repo) : Type 0 where
  pub is_file-write :
      (p t q : Text) (r r' : Repo.State repo)
      → repo.write p t r ≡ (true, r')
      → repo.is_file r' q ≡ (p == q || repo.is_file r q)
  pub read-write :
      (p t q : Text) (r r' : Repo.State repo)
      → repo.write p t r ≡ (true, r')
      → repo.read r' q ≡ (if p == q then some t else repo.read r q)
  pub is_file-remove :
      (p q : Text) (r r' : Repo.State repo)
      → repo.remove p r ≡ some r'
      → repo.is_file r' q ≡ (not (p == q) && repo.is_file r q)
  pub read-remove :
      (p q : Text) (r r' : Repo.State repo)
      → repo.remove p r ≡ some r'
      → p == q ≡ false
      → repo.read r' q ≡ repo.read r q
  pub is_file-commit :
      (p m q : Text) (r : Repo.State repo) (c : Commit) (r' : Repo.State repo)
      → repo.commit_path p m r ≡ some (c, r')
      → repo.is_file r' q ≡ repo.is_file r q
  pub read-commit :
      (p m q : Text) (r : Repo.State repo) (c : Commit) (r' : Repo.State repo)
      → repo.commit_path p m r ≡ some (c, r')
      → repo.read r' q ≡ repo.read r q

module _ (yaml : Yaml) (repo : Repo) (files : Files repo) where
  -- What `get` reads depends on the two files of the key alone.
  pub get-same :
      (k : Text) (r r' : Repo.State repo)
      → repo.is_file r' (file_rel k) ≡ repo.is_file r (file_rel k)
      → repo.is_file r' (legacy_rel k) ≡ repo.is_file r (legacy_rel k)
      → repo.read r' (file_rel k) ≡ repo.read r (file_rel k)
      → repo.read r' (legacy_rel k) ≡ repo.read r (legacy_rel k)
      → get yaml repo k r' ≡ get yaml repo k r
  unfolding get existing_rel
  get-same k r r' a b c d = elim (Bool-cases (repo.is_file r (file_rel k))) [
    | inl e ↦ rw (a, e, c) refl
    | inr n ↦ elim (Bool-cases (repo.is_file r (legacy_rel k))) [
      | inl e ↦ rw (a, n, b, e, d) refl
      | inr m ↦ rw (a, n, b, m) refl
    ]
  ]

  -- A write that was committed, of whichever entry.
  pub record Written (e : Entry) (r r' : Repo.State repo) : Type 0 where
    pub is_file : (q : Text) → repo.is_file r' q ≡ (file_rel e.key == q || repo.is_file r q)
    pub read :
        (q : Text)
        → repo.read r' q
          ≡ (if file_rel e.key == q then some (to_markdown yaml e) else repo.read r q)

  commit_write-done :
      (existing : Option Entry) (e : Entry) (r r' : Repo.State repo) (o : UpsertOutcome)
      → commit_write yaml repo existing e r ≡ (ok o, r')
      → (c : Commit) × (repo.commit_path (file_rel e.key) (codes "kyb: upsert " ++ e.key) r
          ≡ some (c, r'))
        × (o ≡ outcome yaml repo existing c e)
  commit_write-done existing e r r' o h =
      elim (Option-cases (repo.commit_path (file_rel e.key) (codes "kyb: upsert " ++ e.key) r)) [
        | inl n ↦ let h' = (rw (commit_write, n) at h) in ground (arith, h')
        | inr ((c, r''), s) ↦
            let h' = (rw (commit_write, s) at h) in
            let (same, last) : (o ≡ outcome yaml repo existing c e) × (r'' ≡ r') =
              (ground (arith, h'), ground (arith, h')) in
            (c, s ∙ ap (λ z. some (c, z)) last, same)
      ]

  after_write-Written :
      (existing : Option Entry) (e : Entry) (r r' : Repo.State repo) (o : UpsertOutcome)
      (out : Bool × Repo.State repo)
      → repo.write (file_rel e.key) (to_markdown yaml e) r ≡ out
      → after_write yaml repo existing e out ≡ (ok o, r')
      → ((c : Commit) × (o ≡ outcome yaml repo existing c e)) × Written e r r'
  after_write-Written existing e r r' o (false, r1) w h = ground (arith, h)
  after_write-Written existing e r r' o (true, r1) w h =
      let (c, committed, told) = commit_write-done existing e r1 r' o h in
      (
        (c, told),
        record {
          is_file =
              λ q. files.is_file-commit _ _ q r1 c r' committed ∙ files.is_file-write _ _ q r r1 w;
          read = λ q. files.read-commit _ _ q r1 c r' committed ∙ files.read-write _ _ q r r1 w;
        },
      )

  write_entry-Written :
      (existing : Option Entry) (e : Entry) (r r' : Repo.State repo) (o : UpsertOutcome)
      → write_entry yaml repo existing e r ≡ (ok o, r')
      → ((c : Commit) × (o ≡ outcome yaml repo existing c e)) × Written e r r'
  unfolding write_entry
  write_entry-Written existing e r r' o h = after_write-Written existing e r r' o _ refl h

  pub Written-get :
      (e : Entry) (r r' : Repo.State repo)
      → Written e r r'
      → get yaml repo e.key r' ≡ parsed yaml repo (some (to_markdown yaml e))
  unfolding get existing_rel
  Written-get e r r' w =
      let there : repo.is_file r' (file_rel e.key) ≡ true =
        w.is_file (file_rel e.key) ∙ rw (eq_refl (file_rel e.key)) refl in
      rw (there, w.read (file_rel e.key), eq_refl (file_rel e.key)) refl

  pub Written-other :
      (e : Entry) (r r' : Repo.State repo) (j : Text)
      → Written e r r'
      → is_valid_key e.key ≡ true
      → is_valid_key j ≡ true
      → e.key ≢ j
      → get yaml repo j r' ≡ get yaml repo j r
  Written-other e r r' j w v u ne =
      let k_plain = is_valid_key-no_slash e.key v in
      let j_plain = is_valid_key-no_slash j u in
      let apart = file_rel-other e.key j k_plain j_plain ne in
      let apart_old = file_rel-legacy e.key j j_plain in
      get-same j r r' (w.is_file (file_rel j) ∙ rw apart refl)
        (w.is_file (legacy_rel j) ∙ rw apart_old refl) (w.read (file_rel j) ∙ rw apart refl)
        (w.read (legacy_rel j) ∙ rw apart_old refl)

  -- The file of an entry, as it is read back.
  abbrev pub ReadBack : Entry → Entry → Type 0
  ReadBack e back = from_markdown yaml (to_markdown yaml e) ≡ ok back

  pub upsert-Written :
      (e : Entry) (today : Text) (r r' : Repo.State repo) (o : UpsertOutcome)
      → upsert yaml repo e today r ≡ (ok o, r')
      → ((old : Entry) × (get yaml repo e.key r ≡ ok (some old))
          × (same_content old e ≡ true)
          × (o ≡ unchanged old)
          × (r' ≡ r))
        ⊎ Written (record e { updated_at = today }) r r'
  unfolding upsert
  upsert-Written e today r r' o h = go (get yaml repo e.key r) refl h
    where
      go :
          (g : Result StoreError (Option Entry))
          → get yaml repo e.key r ≡ g
          → upsert_over yaml repo e today r g ≡ (ok o, r')
          → ((old : Entry) × (get yaml repo e.key r ≡ ok (some old))
              × (same_content old e ≡ true)
              × (o ≡ unchanged old)
              × (r' ≡ r))
            ⊎ Written (record e { updated_at = today }) r r'
      go (err failed) eq k = ground (arith, k)
      go (ok none) eq k =
          inr (write_entry-Written none (record e { updated_at = today }) r r' o k).1
      go (ok (some old)) eq k = elim (Bool-cases (same_content old e)) [
        | inl s ↦ let k' = (rw s at k) in inl (old, eq, s, ground (arith, k'), ground (arith, k'))
        | inr n ↦
            inr
              (write_entry-Written (some old) (record e { updated_at = today }) r r' o
                (rw n at k)).1
      ]
