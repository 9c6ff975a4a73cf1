-- ===== src/Service/Landing.antt =====
-- main.rs: what a locked write that answers with OK has done to the tree.
use kyb.Common.{
  some_same, none_not_some, true_not_false, Result-cases, subst, ℕ, Bool, true, false, ◌≡◌, refl,
  sym, ap, ◌∙◌, inl, inr, Option, none, some, Text, Result, ok, err, Option-cases, arith,
}
use kyb.Entry.{Entry, is_valid_key, is_closed}
use kyb.Entry.Validation.{validate}
use kyb.Entry.Accepted.{Common, validate-Common}
use kyb.Store.{
  Commit, Repo, StoreError, UpsertOutcome, created, updated, unchanged, upsert, archive,
}
use kyb.Service.{View}
use kyb.Service.Parents.{ChainError}
use kyb.Service.Requests.{Built, Extra}
use kyb.Service.State.{
  IndexWriter, Landed, Reply, refused, invalid, cycle, failed, not_indexed, done, AppState, Env,
  note_write, note_archived,
}
use kyb.Service.Commit.{
  view, had_history, indexed, after_index, tell_index, written, write_checked, with_chain,
  commit_locked, archive_told, archive_locked, archive_if, noted, when_committed, locked_write,
}

module _ (env : Env) where
  after_index-done :
      (e : Entry) (l l' : Landed) (st st' : AppState env) (told : Option Entry)
      (out : Bool × IndexWriter.State env.index)
      → after_index env e l st out ≡ (done l', told, st')
      → (l ≡ l') × (st.store ≡ st'.store)
  after_index-done e l l' st st' told (false, docs) h = ground (arith, h)
  after_index-done e l l' st st' told (true, docs) h =
      (ground (arith, h), ap (AppState.store) (ap (λ z. z.2) h))

  tell_index-done :
      (c : Commit) (e : Entry) (l l' : Landed) (st st' : AppState env) (told : Option Entry)
      → tell_index env c e l st ≡ (done l', told, st')
      → (l ≡ l') × (st.store ≡ st'.store)
  tell_index-done c e l l' st st' told h =
      after_index-done e l l' st st' told (indexed env c e st.docs) h

  written-done :
      (had : Bool) (x : Extra) (out : Result StoreError UpsertOutcome) (l : Landed)
      (st st' : AppState env) (told : Option Entry)
      → written env had x out st ≡ (done l, told, st')
      → (o : UpsertOutcome) × (out ≡ ok o) × (st.store ≡ st'.store) × (l.archive_sha ≡ none)
  unfolding written
  written-done had x (err e) l st st' told h = ground (arith, h)
  written-done had x (ok (unchanged e)) l st st' told h =
      (unchanged e, refl, ap AppState.store (ap (λ z. z.2) h), ground (arith, h))
  written-done had x (ok (created c e)) l st st' told h =
      let (same, still) = tell_index-done c e _ l st st' told h in
      (created c e, refl, still, ap Landed.archive_sha (sym same))
  written-done had x (ok (updated c e)) l st st' told h =
      let (same, still) = tell_index-done c e _ l st st' told h in
      (updated c e, refl, still, ap Landed.archive_sha (sym same))

  -- What a write that answers with OK has written.
  pub record Upserted (today : Text) (e : Entry) (l : Landed) (r r' : Repo.State env.repo)
      : Type 0 where
    pub outcome : UpsertOutcome
    pub valid : is_valid_key e.key ≡ true
    pub upserted : upsert env.yaml env.repo e today r ≡ (ok outcome, r')
    pub in_place : l.archive_sha ≡ none

  pair_path : {A B : Type 0} {a c : A} {b d : B} → a ≡ c → b ≡ d → ◌≡◌ {A = A × B} (a, b) (c, d)
  pair_path {c = c} {b = b} p q = ap (λ z. (z, b)) p ∙ ap (λ z. (c, z)) q

  write_checked-done :
      (today : Text) (e : Entry) (x : Extra) (l : Landed) (st st' : AppState env)
      (told : Option Entry)
      → is_valid_key e.key ≡ true
      → write_checked env today e x st ≡ (done l, told, st')
      → Upserted today e l st.store st'.store
  write_checked-done today e x l st st' told v h =
      let u = upsert env.yaml env.repo e today st.store in
      let (o, out, still, none_yet) =
        written-done (had_history env st.store e.key) x u.0 l (record st { store = u.1 }) st' told
          h in
      record { outcome = o; valid = v; upserted = pair_path out still; in_place = none_yet }

  with_chain-done :
      (today : Text) (e : Entry) (x : Extra) (l : Landed) (st st' : AppState env)
      (told : Option Entry) (checked : Option (Result ChainError (Unit {0})))
      → is_valid_key e.key ≡ true
      → with_chain env today e x st checked ≡ some (done l, told, st')
      → Upserted today e l st.store st'.store
  with_chain-done today e x l st st' told none v h = ground (arith, h)
  with_chain-done today e x l st st' told (some (err c)) v h = ground (arith, h)
  with_chain-done today e x l st st' told (some (ok t)) v h =
      write_checked-done today e x l st st' told v (some_same h)

  commit_locked-done :
      (rounds : ℕ) (today : Text) (e : Entry) (x : Extra) (l : Landed) (st st' : AppState env)
      (told : Option Entry)
      → commit_locked env rounds today e x st ≡ some (done l, told, st')
      → Upserted today e l st.store st'.store
  unfolding commit_locked
  commit_locked-done rounds today e x l st st' told h =
      elim (Result-cases (validate env.chrono env.regex_find e)) [
        | inl (c, n) ↦ let h' = (rw (commit_locked, n) at h) in ground (arith, h')
        | inr (t, n) ↦
            let v = Common.key_valid (validate-Common env.chrono env.regex_find e n) in
            with_chain-done today e x l st st' told _ v (rw (commit_locked, n) at h)
      ]

  -- What an archival after a write that answered with OK has removed.
  pub record Archived (key : Text) (l : Landed) (r r' : Repo.State env.repo) : Type 0 where
    pub out : Result StoreError (Option Text)
    pub removed : archive env.yaml env.repo key r ≡ (out, r')
    pub told : (sha : Text) → l.archive_sha ≡ some sha → out ≡ ok (some sha)

  archive_told-done :
      (key : Text) (l0 l : Landed) (out : Result StoreError (Option Text)) (st st' : AppState env)
      → l0.archive_sha ≡ none
      → archive_told env key l0 out st ≡ (done l, st')
      → (st.store ≡ st'.store) × ((sha : Text) → l.archive_sha ≡ some sha → out ≡ ok (some sha))
  unfolding note_archived
  archive_told-done key l0 l (err e) st st' n h =
      let same : l0 ≡ l = ground (arith, h) in
      (
        ap AppState.store (ap (λ z. z.1) h),
        λ sha s. absurd (none_not_some (sym n ∙ ap Landed.archive_sha same ∙ s)),
      )
  archive_told-done key l0 l (ok none) st st' n h =
      let same : l0 ≡ l = ground (arith, h) in
      (
        ap AppState.store (ap (λ z. z.1) h),
        λ sha s. absurd (none_not_some (sym n ∙ ap Landed.archive_sha same ∙ s)),
      )
  archive_told-done key l0 l (ok (some sha)) st st' n h =
      let same : record l0 { archive_sha = some sha } ≡ l = ground (arith, h) in
      (ap AppState.store (ap (λ z. z.1) h), λ other s. ap ok (ap Landed.archive_sha same ∙ s))

  -- The write and the archival of an entry, as far as each has come.
  pub record Done (today : Text) (e : Entry) (l : Landed) (r r' : Repo.State env.repo)
      : Type 0 where
    pub first : Landed
    pub between : Repo.State env.repo
    pub upserted : Upserted today e first r between
    pub kept : is_closed e ≡ false → between ≡ r'
    pub archived : is_closed e ≡ true → Archived e.key l between r'

  archive_locked-done :
      (today : Text) (e : Entry) (reply : Reply) (l : Landed) (r : Repo.State env.repo)
      (st st' : AppState env)
      → ((l0 : Landed) → reply ≡ done l0 → Upserted today e l0 r st.store)
      → is_closed e ≡ true
      → archive_locked env e.key reply st ≡ (done l, st')
      → Done today e l r st'.store
  unfolding archive_locked
  archive_locked-done today e (done l0) l r st st' up closed h =
      let u = up l0 refl in
      let gone = archive env.yaml env.repo e.key st.store in
      let (still, told) =
        archive_told-done e.key l0 l gone.0 (record st { store = gone.1 }) st' (Upserted.in_place u)
          h in
      record {
        first = l0;
        between = st.store;
        upserted = u;
        kept = λ live. absurd (true_not_false (sym closed ∙ live));
        archived = λ c. record { out = gone.0; removed = pair_path refl still; told = told };
      }
  archive_locked-done today e (refused x) l r st st' up closed h = ground (arith, h)
  archive_locked-done today e (invalid x) l r st st' up closed h = ground (arith, h)
  archive_locked-done today e (cycle x) l r st st' up closed h = ground (arith, h)
  archive_locked-done today e failed l r st st' up closed h = ground (arith, h)
  archive_locked-done today e not_indexed l r st st' up closed h = ground (arith, h)

  archive_if-done :
      (closed : Bool) (today : Text) (e : Entry) (reply : Reply) (c told : Option Entry)
      (l : Landed) (r : Repo.State env.repo) (st st' : AppState env)
      → ((l0 : Landed) → reply ≡ done l0 → Upserted today e l0 r st.store)
      → is_closed e ≡ closed
      → archive_if env closed e.key (reply, c, st) ≡ (done l, told, st')
      → Done today e l r st'.store
  archive_if-done false today e reply c told l r st st' up live h = record {
    first = l;
    between = st'.store;
    upserted =
        subst (Upserted today e l r) (ap AppState.store (ap (λ z. z.2) h)) (up l (ap (λ z. z.0) h));
    kept = λ o. refl;
    archived = λ closed. absurd (true_not_false (sym closed ∙ live));
  }
  archive_if-done true today e reply c told l r st st' up closed h =
      archive_locked-done today e reply l r st st' up closed
        (pair_path (ap (λ z. z.0) h) (ap (λ z. z.2) h))

  triple_path :
      {A B C : Type 0} {a a' : A} {b b' : B} {c c' : C}
      → a ≡ a'
      → b ≡ b'
      → c ≡ c'
      → ◌≡◌ {A = A × B × C} (a, b, c) (a', b', c')
  triple_path {a' = a'} {b = b} {b' = b'} {c = c} p q r =
      ap (λ z. (z, b, c)) p ∙ ap (λ z. (a', z, c)) q ∙ ap (λ z. (a', b', z)) r

  noted-done :
      (out : Reply × Option Entry × AppState env) (l : Landed) (told : Option Entry)
      (st' : AppState env)
      → noted env out ≡ (done l, told, st')
      → (out ≡ (done l, told, out.2)) × ((out.2).store ≡ st'.store)
  unfolding note_write
  noted-done (reply, c, st) l told st' h =
      (triple_path (ap (λ z. z.0) h) (ap (λ z. z.1) h) refl, ap AppState.store (ap (λ z. z.2) h))

  when_committed-done :
      (rounds : ℕ) (today : Text) (e : Entry) (x : Extra) (l : Landed) (told : Option Entry)
      (st st' : AppState env)
      → when_committed env e (commit_locked env rounds today e x st) ≡ some (done l, told, st')
      → Done today e l st.store st'.store
  when_committed-done rounds today e x l told st st' h =
      elim (Option-cases (commit_locked env rounds today e x st)) [
        | inl n ↦ let h' = (rw (when_committed, n) at h) in ground (arith, h')
        | inr ((reply, c, st1), n) ↦
            let h' = some_same (rw (when_committed, n) at h) in
            let out = archive_if env (is_closed e) e.key (reply, c, st1) in
            let (shape, still) = noted-done out l told st' h' in
            let up : (l0 : Landed) → reply ≡ done l0 → Upserted today e l0 st.store st1.store =
              λ l0 same.
                commit_locked-done rounds today e x l0 st st1 c
                  (n ∙ ap (λ z. some (z, c, st1)) same) in
            subst (Done today e l st.store) still (
              archive_if-done (is_closed e) today e reply c told l st.store st1 (out.2) up refl
                shape)
      ]

  pub locked_write-done :
      (rounds : ℕ) (today : Text) (build : View → Built) (e : Entry) (x : Extra) (l : Landed)
      (told : Option Entry) (st st' : AppState env)
      → build (view env st.store) ≡ ok (e, x)
      → locked_write env rounds today build st ≡ some (done l, told, st')
      → Done today e l st.store st'.store
  unfolding locked_write note_write
  locked_write-done rounds today build e x l told st st' b h =
      when_committed-done rounds today e x l told (note_write st) st' (rw (locked_write, b) at h)
