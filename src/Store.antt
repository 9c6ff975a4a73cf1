-- ===== src/Store.antt =====
-- store.rs: the entries as files of a git repository. The file system and git (crate git2) are an
-- interface, and the YAML of a file is that of `Entry.Markdown`.
pub mod Paths
pub mod Writing
pub mod Removing
pub mod Effects
pub mod History
pub mod Extending
pub mod Served
pub mod Walk
pub mod Memory
mod Tests
use kyb.Common.{
  ℕ, Bool, true, false, ◌≡◌, Option, none, some, List, [], ◌∷◌, ◌++◌, Text, codes, ◌==◌, eqb,
  starts_with, any, if◌then◌else◌, Result, ok, err,
}
use kyb.Common.Int.{ℤ}
use kyb.Entry.{Entry, incident_prefix, task_prefix}
use kyb.Entry.Comparing.{same_content}
use kyb.Entry.Markdown.{Yaml, from_markdown, to_markdown}

unfoldable pub dir_for_key : Text → Text
dir_for_key key =
    if starts_with incident_prefix key
    then codes "incidents"
    else if starts_with task_prefix key
    then codes "tasks"
    else codes "knowledge"

abbrev pub extension : Text
extension = codes ".md"

unfoldable pub file_rel : Text → Text
file_rel key = dir_for_key key ++ (47 ∷ (key ++ extension))

unfoldable pub legacy_rel : Text → Text
legacy_rel key = key ++ extension

abbrev pub has_slash : Text → Bool
has_slash s = any (λ c. eqb c 47) s

-- `rsplit('/').next()`: what stands behind the last slash.
unfoldable pub last_segment : Text → Text
last_segment [] = []
last_segment (c ∷ s) =
    let behind = last_segment s in if has_slash s then behind else if eqb c 47 then s else c ∷ s

abbrev pub cons_some : ℕ → Option Text → Option Text
cons_some c none = none
cons_some c (some s) = some (c ∷ s)

abbrev pub no_suffix : ℕ → Text → Text → Option Text → Option Text
no_suffix c s suffix later = if suffix == c ∷ s then some [] else cons_some c later

unfoldable pub strip_suffix : Text → Text → Option Text
strip_suffix suffix [] = if suffix == [] then some [] else none
strip_suffix suffix (c ∷ s) = no_suffix c s suffix (strip_suffix suffix s)

abbrev pub of_path : Text → Option Text → Option Text
of_path path none = none
of_path path (some key) =
    if path == file_rel key then some key else if path == legacy_rel key then some key else none

unfoldable pub key_of_path : Text → Option Text
key_of_path path = of_path path (strip_suffix extension (last_segment path))

-- What the store asks of the working tree and of git; nothing is a failure.
pub record Commit : Type 0 where
  pub sha : Text
  pub committed_at : ℤ

pub record Repo : Type 1 where
  pub State : Type 0
  pub is_file : State → Text → Bool
  pub read : State → Text → Option Text
  -- Whether the text was written, and what is left of the files: a write that fails can leave a part.
  pub write : Text → Text → State → Bool × State
  pub remove : Text → State → Option State
  -- Stages what was written or removed at a path, and commits it with a message.
  pub commit_path : Text → Text → State → Option (Commit × State)

pub data StoreError : Type 0 where
  io corrupt : StoreError

pub data UpsertOutcome : Type 0 where
  created : Commit → Entry → UpsertOutcome
  updated : Commit → Entry → UpsertOutcome
  unchanged : Entry → UpsertOutcome

module _ (yaml : Yaml) (repo : Repo) where
  abbrev pub first_file : Repo.State repo → Text → Text → Option Text
  first_file r rel old_rel =
      if repo.is_file r rel then some rel else if repo.is_file r old_rel then some old_rel else none

  unfoldable pub existing_rel : Text → Repo.State repo → Option Text
  existing_rel key r = first_file r (file_rel key) (legacy_rel key)

  abbrev pub parsed : Option Text → Result StoreError (Option Entry)
  parsed none = err io
  parsed (some s) = elim (from_markdown yaml s) [ ok e ↦ ok (some e) | err p ↦ err corrupt ]

  abbrev pub read_rel : Repo.State repo → Option Text → Result StoreError (Option Entry)
  read_rel r none = ok none
  read_rel r (some rel) = parsed (repo.read r rel)

  unfoldable pub get : Text → Repo.State repo → Result StoreError (Option Entry)
  get key r = read_rel r (existing_rel key r)

  abbrev pub is_same : Option Entry → Entry → Bool
  is_same none e = false
  is_same (some old) e = same_content old e

  abbrev pub outcome : Option Entry → Commit → Entry → UpsertOutcome
  outcome none c e = created c e
  outcome (some old) c e = updated c e

  -- The end of a write: what is committed is told, and a failure leaves the file as it was written.
  abbrev pub commit_write :
      Option Entry → Entry → Repo.State repo → Result StoreError UpsertOutcome × Repo.State repo
  commit_write existing e r =
      elim (repo.commit_path (file_rel e.key) (codes "kyb: upsert " ++ e.key) r) [
        | none ↦ (err io, r)
        | some (c, r') ↦ (ok (outcome existing c e), r')
      ]

  abbrev pub after_write :
      Option Entry
      → Entry
      → Bool × Repo.State repo
      → Result StoreError UpsertOutcome × Repo.State repo
  after_write existing e (false, r) = (err io, r)
  after_write existing e (true, r) = commit_write existing e r

  unfoldable pub write_entry :
      Option Entry → Entry → Repo.State repo → Result StoreError UpsertOutcome × Repo.State repo
  write_entry existing e r =
      after_write existing e (repo.write (file_rel e.key) (to_markdown yaml e) r)

  abbrev pub upsert_over :
      Entry
      → Text
      → Repo.State repo
      → Result StoreError (Option Entry)
      → Result StoreError UpsertOutcome × Repo.State repo
  upsert_over e today r (err failed) = (err failed, r)
  upsert_over e today r (ok none) = write_entry none (record e { updated_at = today }) r
  upsert_over e today r (ok (some old)) =
      if same_content old e
      then (ok (unchanged old), r)
      else write_entry (some old) (record e { updated_at = today }) r

  unfoldable pub upsert :
      Entry → Text → Repo.State repo → Result StoreError UpsertOutcome × Repo.State repo
  upsert e today r = upsert_over e today r (get e.key r)

  abbrev pub commit_removal :
      Text
      → Text
      → Option (Repo.State repo)
      → Repo.State repo
      → Result StoreError (Option Text) × Repo.State repo
  commit_removal rel msg none r = (err io, r)
  commit_removal rel msg (some r') r = elim (repo.commit_path rel msg r') [
    | none ↦ (err io, r')
    | some (c, r'') ↦ (ok (some c.sha), r'')
  ]

  abbrev pub remove_rel :
      Text → Option Text → Repo.State repo → Result StoreError (Option Text) × Repo.State repo
  remove_rel msg none r = (ok none, r)
  remove_rel msg (some rel) r = commit_removal rel msg (repo.remove rel r) r

  unfoldable pub remove_file :
      Text → Text → Repo.State repo → Result StoreError (Option Text) × Repo.State repo
  remove_file key msg r = remove_rel msg (existing_rel key r) r

  unfoldable pub delete : Text → Repo.State repo → Result StoreError (Option Text) × Repo.State repo
  delete key r = remove_file key (codes "kyb: delete " ++ key) r

  unfoldable pub archive :
      Text → Repo.State repo → Result StoreError (Option Text) × Repo.State repo
  archive key r = remove_file key (codes "kyb: archive " ++ key) r
