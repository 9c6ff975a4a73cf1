-- ===== src/Service/Commit.antt =====
-- main.rs: `locked_write`, the one section that commits an entry, with `commit_locked` and
-- `archive_locked`.
use kyb.Common.{
  if◌then◌else◌, ℕ, Bool, true, false, ◌&&◌, Option, none, some, [], Text, Result, ok, err,
}
use kyb.Entry.{Entry, is_closed}
use kyb.Entry.Validation.{validate}
use kyb.Keys.{similar_keys}
use kyb.Store.{
  Commit, Repo, StoreError, UpsertOutcome, created, updated, unchanged, get, upsert, archive,
}
use kyb.Service.{View}
use kyb.Service.Parents.{ChainError, validate_task_parent_chain}
use kyb.Service.Requests.{Built, Extra, null}
use kyb.Service.State.{
  IndexWriter, create, update, Landed, Reply, refused, invalid, cycle, failed, not_indexed, done,
  AppState, Env, note_archived, note_write,
}

module _ (env : Env) where
  abbrev pub tree_entry : Result StoreError (Option Entry) → Option Entry
  tree_entry (ok e) = e
  tree_entry (err e) = none

  abbrev pub view : Repo.State env.repo → View
  view r = record { tree = λ k. tree_entry (get env.yaml env.repo k r); latest = env.past.latest r }

  abbrev pub is_absent_key : Result StoreError (Option Entry) → Bool
  is_absent_key (ok none) = true
  is_absent_key _ = false

  abbrev pub had_history : Repo.State env.repo → Text → Bool
  had_history r key = is_absent_key (get env.yaml env.repo key r) && env.past.has_history r key

  abbrev pub indexed :
      Commit → Entry → IndexWriter.State env.index → Bool × IndexWriter.State env.index
  indexed c e docs =
      let (added, docs') = env.index.upsert_head e c.sha c.committed_at docs in
      if added then env.index.commit_and_reload docs' else (false, docs')

  abbrev pub after_index :
      Entry
      → Landed
      → AppState env
      → Bool × IndexWriter.State env.index
      → Reply × Option Entry × AppState env
  after_index e reply st (false, docs) = (not_indexed, none, record st { docs = docs })
  after_index e reply st (true, docs) = (done reply, some e, record st { docs = docs })

  -- The end of a write that git has: the index is told, and the reply is built.
  abbrev pub tell_index :
      Commit → Entry → Landed → AppState env → Reply × Option Entry × AppState env
  tell_index c e reply st = after_index e reply st (indexed c e st.docs)

  abbrev pub created_reply : Bool → Commit → Entry → Extra → AppState env → Landed
  created_reply had c e extra st = record {
    key = e.key;
    sha = some c.sha;
    action = some create;
    similar = similar_keys env.cap_of e.key (env.past.known st.store);
    revived = had;
    extra = extra;
    archive_sha = none;
  }

  abbrev pub updated_reply : Commit → Entry → Extra → Landed
  updated_reply c e extra = record {
    key = e.key;
    sha = some c.sha;
    action = some update;
    similar = [];
    revived = false;
    extra = extra;
    archive_sha = none;
  }

  abbrev pub unchanged_reply : Entry → Landed
  unchanged_reply e = record {
    key = e.key;
    sha = none;
    action = none;
    similar = [];
    revived = false;
    extra = null;
    archive_sha = none;
  }

  unfoldable pub written :
      Bool
      → Extra
      → Result StoreError UpsertOutcome
      → AppState env
      → Reply × Option Entry × AppState env
  written had extra (err e) st = (failed, none, st)
  written had extra (ok (unchanged e)) st = (done (unchanged_reply e), none, st)
  written had extra (ok (created c e)) st = tell_index c e (created_reply had c e extra st) st
  written had extra (ok (updated c e)) st = tell_index c e (updated_reply c e extra) st

  abbrev pub write_checked :
      Text → Entry → Extra → AppState env → Reply × Option Entry × AppState env
  write_checked today e extra st =
      let (outcome, r) = upsert env.yaml env.repo e today st.store in
      written (had_history st.store e.key) extra outcome (record st { store = r })

  abbrev pub after_chain :
      Text
      → Entry
      → Extra
      → AppState env
      → Result ChainError (Unit {0})
      → Reply × Option Entry × AppState env
  after_chain today e extra st (err c) = (cycle c, none, st)
  after_chain today e extra st (ok passed) = write_checked today e extra st

  abbrev pub with_chain :
      Text
      → Entry
      → Extra
      → AppState env
      → Option (Result ChainError (Unit {0}))
      → Option (Reply × Option Entry × AppState env)
  with_chain today e extra st none = none
  with_chain today e extra st (some checked) = some (after_chain today e extra st checked)

  -- `none` is a chain of parents that is longer than the rounds that it is given.
  unfoldable pub commit_locked :
      ℕ → Text → Entry → Extra → AppState env → Option (Reply × Option Entry × AppState env)
  commit_locked rounds today e extra st = elim (validate env.chrono env.regex_find e) [
    | err refusal ↦ some (invalid refusal, none, st)
    | ok passed ↦ with_chain today e extra st (validate_task_parent_chain rounds (view st.store) e)
  ]

  abbrev pub archive_told :
      Text → Landed → Result StoreError (Option Text) → AppState env → Reply × AppState env
  archive_told key reply (err e) st = (done reply, st)
  archive_told key reply (ok none) st = (done reply, st)
  archive_told key reply (ok (some sha)) st =
      (done (record reply { archive_sha = some sha }), note_archived key st)

  abbrev pub archive_done : Text → Landed → AppState env → Reply × AppState env
  archive_done key reply st =
      let (gone, r) = archive env.yaml env.repo key st.store in
      archive_told key reply gone (record st { store = r })

  -- A reply that is not OK leaves the entry in the tree.
  unfoldable pub archive_locked : Text → Reply → AppState env → Reply × AppState env
  archive_locked key (done reply) st = archive_done key reply st
  archive_locked key (refused refusal) st = (refused refusal, st)
  archive_locked key (invalid e) st = (invalid e, st)
  archive_locked key (cycle c) st = (cycle c, st)
  archive_locked key failed st = (failed, st)
  archive_locked key not_indexed st = (not_indexed, st)

  abbrev pub archive_if :
      Bool → Text → Reply × Option Entry × AppState env → Reply × Option Entry × AppState env
  archive_if false key (reply, committed, st) = (reply, committed, st)
  archive_if true key (reply, committed, st) =
      let (reply', st') = archive_locked key reply st in (reply', committed, st')

  abbrev pub noted : Reply × Option Entry × AppState env → Reply × Option Entry × AppState env
  noted (reply, committed, st) = (reply, committed, note_write st)

  abbrev pub when_committed :
      Entry
      → Option (Reply × Option Entry × AppState env)
      → Option (Reply × Option Entry × AppState env)
  when_committed e none = none
  when_committed e (some out) = some (noted (archive_if (is_closed e) e.key out))

  -- What stands under the lock. The entry that it gives is the one that the vectors are to be told of,
  -- by `begin_upsert` before the lock is dropped.
  unfoldable pub locked_write :
      ℕ → Text → (View → Built) → AppState env → Option (Reply × Option Entry × AppState env)
  locked_write rounds today build st = elim (build (view st.store)) [
    | err refusal ↦ some (refused refusal, none, st)
    | ok (e, extra) ↦ when_committed e (commit_locked rounds today e extra (note_write st))
  ]
