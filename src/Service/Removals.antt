-- ===== src/Service/Removals.antt =====
-- main.rs: what the removal of an entry does to the tree, and who may retract knowledge.
use kyb.Common.{
  Bool, true, false, ◌&&◌, ◌≡◌, ◌≢◌, subst, refl, sym, ◌∙◌, Option, none, some, [], ◌∷◌, ◌++◌, Text,
  ◌==◌, ltb, if◌then◌else◌, Result, ok, err, arith,
}
use kyb.Common.Int.{ℤ}
use kyb.Auth.{Role, admin, rank}
use kyb.Entry.{Entry, kind_knowledge, is_valid_key}
use kyb.Store.{Repo, StoreError, file_rel, legacy_rel, get, delete, archive}
use kyb.Store.Writing.{Files}
use kyb.Store.Effects.{archive_lem, delete_lem}
use kyb.Service.State.{IndexWriter, AppState, Env, note_archived, note_write}
use kyb.Service.Removal.{
  RemoveReply, needs_admin, retracted, archived, or_now, retract_docs, publish, after_publish,
  after_delete, after_archive, delete_known, archive_known, remove_committed, noted_removal, remove,
}

module _ (env : Env) (files : Files env.repo) where
  -- What holds of a removal that is done.
  abbrev pub Gone : Text → AppState env → AppState env → Type 0
  Gone key st st' =
      (get env.yaml env.repo key st'.store ≡ ok none)
      × ((j : Text)
          → is_valid_key j ≡ true
          → key ≢ j
          → get env.yaml env.repo j st'.store ≡ get env.yaml env.repo j st.store)

  abbrev pub Noted : Text → AppState env → AppState env → Type 0
  Noted key st st' = st'.archived_since ≡ st.archived_since ++ ((st.note_seq, key) ∷ [])

  abbrev pub Removes :
      Text → Bool → AppState env → RemoveReply × Option Text × AppState env → Type 0
  Removes key known st (reply, told, st') =
      ((sha : Text) → reply ≡ retracted sha → (known ≡ true) × (told ≡ some key) × Gone key st st')
      × ((sha : Text) → reply ≡ archived sha → (known ≡ false) × Noted key st st' × Gone key st st')

  abbrev OneFile : Text → AppState env → Type 0
  OneFile key st =
      (env.repo.is_file st.store (file_rel key) && env.repo.is_file st.store (legacy_rel key))
      ≡ false

  after_publish-Removes :
      (key sha : Text) (st st1 : AppState env) (out : Bool × IndexWriter.State env.index)
      → Gone key st st1
      → Removes key true st (after_publish env key sha st1 out)
  after_publish-Removes key sha st st1 (false, docs) g =
      (λ s h. ground (arith, h), λ s h. ground (arith, h))
  after_publish-Removes key sha st st1 (true, docs) g =
      (λ s h. (refl, refl, g), λ s h. ground (arith, h))

  publish-Removes :
      (key sha : Text) (now : ℤ) (st st1 : AppState env)
      → Gone key st st1
      → Removes key true st (publish env key sha now st1)
  publish-Removes key sha now st st1 g =
      let docs = retract_docs env key (or_now env (env.past.rev_time st1.store sha) now) st1.docs in
      after_publish-Removes key sha st st1 (env.index.commit_and_reload docs) g

  after_delete-Removes :
      (key : Text) (now : ℤ) (st : AppState env) (out : Result StoreError (Option Text))
      (r : Repo.State env.repo)
      → is_valid_key key ≡ true
      → OneFile key st
      → delete env.yaml env.repo key st.store ≡ (out, r)
      → Removes key true st (after_delete env key now out (record st { store = r }))
  after_delete-Removes key now st (err e) r v one h =
      (λ s h. ground (arith, h), λ s h. ground (arith, h))
  after_delete-Removes key now st (ok none) r v one h =
      (λ s h. ground (arith, h), λ s h. ground (arith, h))
  after_delete-Removes key now st (ok (some sha)) r v one h =
      publish-Removes key sha now st (record st { store = r })
        (delete_lem env.yaml env.repo files key sha st.store r v one h)

  after_archive-Removes :
      (key : Text) (st : AppState env) (out : Result StoreError (Option Text))
      (r : Repo.State env.repo)
      → is_valid_key key ≡ true
      → OneFile key st
      → archive env.yaml env.repo key st.store ≡ (out, r)
      → Removes key false st (after_archive env key out (record st { store = r }))
  unfolding note_archived
  after_archive-Removes key st (err e) r v one h =
      (λ s h. ground (arith, h), λ s h. ground (arith, h))
  after_archive-Removes key st (ok none) r v one h =
      (λ s h. ground (arith, h), λ s h. ground (arith, h))
  after_archive-Removes key st (ok (some sha)) r v one h = (
    λ s h. ground (arith, h),
    λ s h'. (refl, refl, archive_lem env.yaml env.repo files key sha st.store r v one h),
  )

  remove_committed-Removes :
      (key : Text) (now : ℤ) (e : Entry) (st : AppState env)
      → is_valid_key key ≡ true
      → OneFile key st
      → Removes key (e.kind == kind_knowledge) st (remove_committed env key now e st)
  unfolding remove_committed
  remove_committed-Removes key now e st v one =
      let deleted = delete env.yaml env.repo key st.store in
      let filed = archive env.yaml env.repo key st.store in
      elim (e.kind == kind_knowledge)
        as (λ b.
          Removes key b st (if b then delete_known env key now st else archive_known env key st)) [
            | true ↦ after_delete-Removes key now st deleted.0 deleted.1 v one refl
            | false ↦ after_archive-Removes key st filed.0 filed.1 v one refl
          ]

  -- A request to remove the entry of a valid key that has one file: of knowledge, without the admin role, it is refused and
  -- nothing changes. Where the reply says that the entry is retracted it was knowledge and its vector is
  -- invalidated, where it says archived it was not knowledge and is noted for the next link index, and in either case
  -- nothing is under the key and every other valid key is as it was.
  pub remove_lem :
      (role : Role) (now : ℤ) (key : Text) (e : Entry) (st : AppState env)
      → is_valid_key key ≡ true
      → get env.yaml env.repo key st.store ≡ ok (some e)
      → (env.repo.is_file st.store (file_rel key) && env.repo.is_file st.store (legacy_rel key))
        ≡ false
      → (e.kind == kind_knowledge ≡ true
          → ltb (rank role) (rank admin) ≡ true
          → remove env role now key st ≡ (needs_admin, none, st))
        × Removes key (e.kind == kind_knowledge) st (remove env role now key st)
  unfolding remove note_write
  remove_lem role now key e st v found one =
      let removed = noted_removal env (remove_committed env key now e (note_write st)) in
      let refuses = e.kind == kind_knowledge && ltb (rank role) (rank admin) in
      let same : remove env role now key st
          ≡ (if refuses then (needs_admin, none, st) else removed) =
        rw (remove, v, found) refl in
      let done = remove_committed-Removes key now e (note_write st) v one in
      (
        λ known low. same ∙ rw (known, low) refl,
        subst (Removes key (e.kind == kind_knowledge) st) (sym same)
            (elim refuses
              as (λ b.
                Removes key (e.kind == kind_knowledge) st
                  (if b then (needs_admin, none, st) else removed)) [
                    | true ↦ (λ s h. ground (arith, h), λ s h. ground (arith, h))
                    | false ↦ done
                  ]),
      )
