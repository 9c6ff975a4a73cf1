-- ===== src/Service/Removal.antt =====
-- main.rs: `remove`, the route that retracts knowledge and archives incidents and tasks.
use kyb.Common.{
  Bool, true, false, not, ◌&&◌, ltb, Option, none, some, Text, ◌==◌, if◌then◌else◌, Result, ok, err,
}
use kyb.Common.Int.{ℤ}
use kyb.Auth.{Role, admin, rank}
use kyb.Entry.{Entry, kind_knowledge, is_valid_key}
use kyb.Store.{StoreError, get, delete, archive}
use kyb.Service.State.{IndexWriter, AppState, Env, note_archived, note_write}

pub data RemoveReply : Type 0 where
  bad_key no_entry needs_admin remove_failed not_reindexed : RemoveReply
  retracted archived : Text → RemoveReply

module _ (env : Env) where
  abbrev pub or_now : Option ℤ → ℤ → ℤ
  or_now none now = now
  or_now (some at) now = at

  -- The tombstone of a retraction, and the documents with it.
  abbrev pub retract_docs : Text → ℤ → IndexWriter.State env.index → IndexWriter.State env.index
  retract_docs key at docs = env.index.retract key at (env.index.delete_head key docs)

  abbrev pub after_publish :
      Text
      → Text
      → AppState env
      → Bool × IndexWriter.State env.index
      → RemoveReply × Option Text × AppState env
  after_publish key sha st (false, docs) = (not_reindexed, none, record st { docs = docs })
  after_publish key sha st (true, docs) = (retracted sha, some key, record st { docs = docs })

  abbrev pub publish : Text → Text → ℤ → AppState env → RemoveReply × Option Text × AppState env
  publish key sha now st =
      let docs = retract_docs key (or_now (env.past.rev_time st.store sha) now) st.docs in
      after_publish key sha st (env.index.commit_and_reload docs)

  abbrev pub after_delete :
      Text
      → ℤ
      → Result StoreError (Option Text)
      → AppState env
      → RemoveReply × Option Text × AppState env
  after_delete key now (err e) st = (remove_failed, none, st)
  after_delete key now (ok none) st = (no_entry, none, st)
  after_delete key now (ok (some sha)) st = publish key sha now st

  abbrev pub after_archive :
      Text
      → Result StoreError (Option Text)
      → AppState env
      → RemoveReply × Option Text × AppState env
  after_archive key (err e) st = (remove_failed, none, st)
  after_archive key (ok none) st = (no_entry, none, st)
  after_archive key (ok (some sha)) st = (archived sha, none, note_archived key st)

  abbrev pub delete_known : Text → ℤ → AppState env → RemoveReply × Option Text × AppState env
  delete_known key now st =
      let (gone, r) = delete env.yaml env.repo key st.store in
      after_delete key now gone (record st { store = r })

  abbrev pub archive_known : Text → AppState env → RemoveReply × Option Text × AppState env
  archive_known key st =
      let (gone, r) = archive env.yaml env.repo key st.store in
      after_archive key gone (record st { store = r })

  -- The key in the result is the one whose vector is invalidated.
  unfoldable pub remove_committed :
      Text → ℤ → Entry → AppState env → RemoveReply × Option Text × AppState env
  remove_committed key now e st =
      if e.kind == kind_knowledge then delete_known key now st else archive_known key st

  abbrev pub noted_removal :
      RemoveReply × Option Text × AppState env → RemoveReply × Option Text × AppState env
  noted_removal (reply, key, st) = (reply, key, note_write st)

  abbrev pub remove_stored :
      Role
      → ℤ
      → Text
      → Result StoreError (Option Entry)
      → AppState env
      → RemoveReply × Option Text × AppState env
  remove_stored role now key (err e) st = (remove_failed, none, st)
  remove_stored role now key (ok none) st = (no_entry, none, st)
  remove_stored role now key (ok (some e)) st =
      if e.kind == kind_knowledge && ltb (rank role) (rank admin)
      then (needs_admin, none, st)
      else noted_removal (remove_committed key now e (note_write st))

  unfoldable pub remove : Role → ℤ → Text → AppState env → RemoveReply × Option Text × AppState env
  remove role now key st =
      if not (is_valid_key key)
      then (bad_key, none, st)
      else remove_stored role now key (get env.yaml env.repo key st.store) st
