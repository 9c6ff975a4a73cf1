-- ===== src/Service/Refusals.antt =====
-- main.rs: that a locked write ends, and what it leaves alone when it refuses.
use kyb.Common.{
  some_same, Result-cases, ℕ, suc, subst, Bool, true, false, ◌≡◌, ◌≢◌, refl, sym, ◌∙◌, inl, inr,
  Option, none, some, List, length, contains, Text, Result, ok, err, Option-cases, arith,
}
use kyb.Entry.{Entry, is_closed}
use kyb.Entry.Validation.{validate}
use kyb.Store.{Commit, StoreError, UpsertOutcome, created, updated, unchanged, upsert, archive}
use kyb.Service.{View, stored_version}
use kyb.Service.Parents.{ChainError, validate_task_parent_chain, validate_task_parent_chain-ends}
use kyb.Service.Requests.{Built, Extra}
use kyb.Service.State.{
  IndexWriter, Landed, Reply, refused, invalid, cycle, failed, not_indexed, done, AppState, Env,
  note_write,
}
use kyb.Service.Commit.{
  view, with_chain, commit_locked, locked_write, written, after_index, tell_index, indexed,
  archive_if, archive_locked, archive_told, after_chain, noted, had_history, created_reply,
  updated_reply,
}

-- A reply that refuses what the writer sent.
unfoldable pub is_refusal : Reply → Bool
is_refusal (refused _) = true
is_refusal (invalid _) = true
is_refusal (cycle _) = true
is_refusal failed = false
is_refusal not_indexed = false
is_refusal (done _) = false

module _ (env : Env) where
  commit_locked-ends :
      (rounds : ℕ) (today : Text) (e : Entry) (x : Extra) (st : AppState env)
      (r : Result ChainError (Unit {0}))
      → validate_task_parent_chain rounds (view env st.store) e ≡ some r
      → (out : Reply × Option Entry × AppState env) × (commit_locked env rounds today e x st
          ≡ some out)
  unfolding commit_locked
  commit_locked-ends rounds today e x st r h =
      elim (Result-cases (validate env.chrono env.regex_find e)) [
        | inl (c, n) ↦ ((invalid c, none, st), rw (commit_locked, n) refl)
        | inr (t, n) ↦ (after_chain env today e x st r, rw (commit_locked, n, h) refl)
      ]

  -- Where the keys with a stored version are listed, a locked write ends with a reply, whatever the
  -- route builds: the check of the parents needs one round more than there are keys.
  pub locked_write-ends :
      (today : Text) (build : View → Built) (st : AppState env) (keys : List Text)
      → ((k : Text) → stored_version (view env st.store) k ≢ none → contains keys k ≡ true)
      → (out : Reply × Option Entry × AppState env) × (locked_write env
            (suc (length keys))
            today
            build
            st
          ≡ some out)
  unfolding locked_write note_write
  locked_write-ends today build st keys cover = elim (Result-cases (build (view env st.store))) [
    | inl (refusal, n) ↦ ((refused refusal, none, st), rw (locked_write, n) refl)
    | inr ((e, x), n) ↦
        let rounds = suc (length keys) in
        let (r, checked) = validate_task_parent_chain-ends (view env st.store) e keys cover in
        let (out, committed) = commit_locked-ends rounds today e x (note_write st) r checked in
        (noted env (archive_if env (is_closed e) e.key out), rw (locked_write, n, committed) refl)
  ]

  -- What is as it was, where a reply refuses.
  abbrev Quiet : AppState env → Reply × Option Entry × AppState env → Type 0
  Quiet st (reply, told, st') =
      is_refusal reply ≡ true
      → (st'.store ≡ st.store)
        × (st'.docs ≡ st.docs)
        × (st'.archived_since ≡ st.archived_since)
        × (told ≡ none)

  after_index-is_refusal :
      (e : Entry) (l : Landed) (st : AppState env) (out : Bool × IndexWriter.State env.index)
      → is_refusal ((after_index env e l st out).0) ≡ false
  unfolding is_refusal
  after_index-is_refusal e l st (false, docs) = refl
  after_index-is_refusal e l st (true, docs) = refl

  tell_index-is_refusal :
      (c : Commit) (e : Entry) (l : Landed) (st : AppState env)
      → is_refusal ((tell_index env c e l st).0) ≡ false
  tell_index-is_refusal c e l st = after_index-is_refusal e l st (indexed env c e st.docs)

  written-is_refusal :
      (had : Bool) (x : Extra) (out : Result StoreError UpsertOutcome) (st : AppState env)
      → is_refusal ((written env had x out st).0) ≡ false
  unfolding written is_refusal
  written-is_refusal had x (err e) st = refl
  written-is_refusal had x (ok (unchanged e)) st = refl
  written-is_refusal had x (ok (created c e)) st =
      tell_index-is_refusal c e (created_reply env had c e x st) st
  written-is_refusal had x (ok (updated c e)) st =
      tell_index-is_refusal c e (updated_reply env c e x) st

  answers : {A : Type 0} (b : Bool) → b ≡ false → b ≡ true → A
  answers b f t = let clash = sym f ∙ t in ground (arith, clash)

  with_chain-Quiet :
      (today : Text) (e : Entry) (x : Extra) (st : AppState env)
      (checked : Option (Result ChainError (Unit {0}))) (out : Reply × Option Entry × AppState env)
      → with_chain env today e x st checked ≡ some out
      → Quiet st out
  with_chain-Quiet today e x st none out h = ground (arith, h)
  with_chain-Quiet today e x st (some (err c)) out h =
      subst (Quiet st) (some_same h) (λ _. (refl, refl, refl, refl))
  with_chain-Quiet today e x st (some (ok t)) out h =
      let u = upsert env.yaml env.repo e today st.store in
      subst (Quiet st) (some_same h) (λ q.
        answers _
          (written-is_refusal (had_history env st.store e.key) x u.0 (record st { store = u.1 })) q)

  commit_locked-Quiet :
      (rounds : ℕ) (today : Text) (e : Entry) (x : Extra) (st : AppState env)
      (out : Reply × Option Entry × AppState env)
      → commit_locked env rounds today e x st ≡ some out
      → Quiet st out
  unfolding commit_locked
  commit_locked-Quiet rounds today e x st out h =
      elim (Result-cases (validate env.chrono env.regex_find e)) [
        | inl (c, n) ↦
            subst (Quiet st) (some_same (rw (commit_locked, n) at h))
              (λ _. (refl, refl, refl, refl))
        | inr (t, n) ↦
            with_chain-Quiet today e x st (validate_task_parent_chain rounds (view env st.store) e)
              out (rw (commit_locked, n) at h)
      ]

  archive_told-is_refusal :
      (key : Text) (l : Landed) (out : Result StoreError (Option Text)) (st : AppState env)
      → is_refusal ((archive_told env key l out st).0) ≡ false
  unfolding is_refusal
  archive_told-is_refusal key l (err e) st = refl
  archive_told-is_refusal key l (ok none) st = refl
  archive_told-is_refusal key l (ok (some sha)) st = refl

  archive_if-Quiet :
      (closed : Bool) (key : Text) (st st' : AppState env) (reply : Reply) (told : Option Entry)
      → Quiet st (reply, told, st')
      → Quiet st (archive_if env closed key (reply, told, st'))
  unfolding archive_locked
  archive_if-Quiet false key st st' reply told q = q
  archive_if-Quiet true key st st' (done l) told q =
      let gone = archive env.yaml env.repo key st'.store in
      λ r. answers _ (archive_told-is_refusal key l gone.0 (record st' { store = gone.1 })) r
  archive_if-Quiet true key st st' (refused x) told q = q
  archive_if-Quiet true key st st' (invalid x) told q = q
  archive_if-Quiet true key st st' (cycle x) told q = q
  archive_if-Quiet true key st st' failed told q = q
  archive_if-Quiet true key st st' not_indexed told q = q

  -- A locked write whose reply refuses the request, as the route did, as invalid or for a cycle of parents, leaves
  -- the repository, the index and the notes of archivals as they were, and gives no entry to the vectors.
  pub locked_write-refuses :
      (rounds : ℕ) (today : Text) (build : View → Built) (st st' : AppState env) (reply : Reply)
      (told : Option Entry)
      → locked_write env rounds today build st ≡ some (reply, told, st')
      → is_refusal reply ≡ true
      → (st'.store ≡ st.store)
        × (st'.docs ≡ st.docs)
        × (st'.archived_since ≡ st.archived_since)
        × (told ≡ none)
  unfolding locked_write note_write
  locked_write-refuses rounds today build st st' reply told h =
      elim (Result-cases (build (view env st.store))) [
        | inl (refusal, n) ↦
            subst (Quiet st) (some_same (rw (locked_write, n) at h)) (λ _. (refl, refl, refl, refl))
        | inr ((e, x), n) ↦
            elim (Option-cases (commit_locked env rounds today e x (note_write st))) [
              | inl m ↦ let h' = (rw (locked_write, n, m) at h) in ground (arith, h')
              | inr ((first, c, st1), m) ↦
                  subst (Quiet st) (some_same (rw (locked_write, n, m) at h)) (
                    archive_if-Quiet (is_closed e) e.key st st1 first c
                      (commit_locked-Quiet rounds today e x (note_write st) (first, c, st1) m))
            ]
      ]
