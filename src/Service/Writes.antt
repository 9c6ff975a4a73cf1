-- ===== src/Service/Writes.antt =====
-- main.rs: what a locked write does to the tree, and that it ends.
use kyb.Common.{
  ℕ, subst, true, false, ◌&&◌, ◌≡◌, ◌≢◌, refl, sym, ap, ◌∙◌, inl, inr, Option, none, some, Text, ok,
  Bool-cases, arith,
}
use kyb.Entry.{Entry, is_valid_key, is_closed}
use kyb.Entry.Comparing.{same_content}
use kyb.Store.{Repo, UpsertOutcome, file_rel, legacy_rel, get, upsert, archive}
use kyb.Store.Paths.{is_valid_key-no_slash, file_rel-legacy}
use kyb.Store.Writing.{Files, ReadBack, upsert-Written}
use kyb.Store.Effects.{upsert_lem, archive_lem}
use kyb.Store.Removing.{archive-other}
use kyb.Service.{View}
use kyb.Service.Requests.{Built, Extra}
use kyb.Service.State.{Landed, done, AppState, Env}
use kyb.Service.Commit.{view, locked_write}
use kyb.Service.Landing.{Archived, locked_write-done}

module _ (env : Env) (files : Files env.repo) where
  upsert-legacy :
      (e : Entry) (today : Text) (o : UpsertOutcome) (r r' : Repo.State env.repo)
      → is_valid_key e.key ≡ true
      → env.repo.is_file r (legacy_rel e.key) ≡ false
      → upsert env.yaml env.repo e today r ≡ (ok o, r')
      → env.repo.is_file r' (legacy_rel e.key) ≡ false
  upsert-legacy e today o r r' v old h =
      elim (upsert-Written env.yaml env.repo files e today r r' o h) [
        | inl (_, _, _, _, still) ↦ ap (λ z. env.repo.is_file z (legacy_rel e.key)) still ∙ old
        | inr w ↦
            let apart = file_rel-legacy e.key e.key (is_valid_key-no_slash e.key v) in
            w.is_file (legacy_rel e.key) ∙ rw (apart, old) refl
      ]

  -- The key of an entry that was written and archived, and all other keys.
  Archived-lands :
      (e : Entry) (l : Landed) (r r' : Repo.State env.repo)
      → is_valid_key e.key ≡ true
      → env.repo.is_file r (legacy_rel e.key) ≡ false
      → Archived env e.key l r r'
      → ((sha : Text) → l.archive_sha ≡ some sha → get env.yaml env.repo e.key r' ≡ ok none)
        × ((j : Text)
            → is_valid_key j ≡ true
            → e.key ≢ j
            → get env.yaml env.repo j r' ≡ get env.yaml env.repo j r)
  Archived-lands e l r r' v old a = (
    λ sha s.
        let one : (env.repo.is_file r (file_rel e.key) && env.repo.is_file r (legacy_rel e.key))
            ≡ false =
          ground (arith, old) in
        let (gone, _) =
          archive_lem env.yaml env.repo files e.key sha r r' v one
            (subst (λ z. archive env.yaml env.repo e.key r ≡ (z, r')) (a.told sha s) a.removed) in
        gone,
    λ j u ne. archive-other env.yaml env.repo files e.key j r r' a.out v u ne a.removed,
  )

  -- Where the entry that a route builds is read back from its file with the content that was written
  -- and its key has no file at the old path, a locked write that answers with OK leaves an entry with that
  -- content under the key if the entry is not closed, and nothing under the key if it is closed
  -- and the reply says that it was archived; every other valid key is as it was.
  pub locked_write_lem :
      (rounds : ℕ) (today : Text) (build : View → Built) (e back : Entry) (x : Extra) (l : Landed)
      (told : Option Entry) (st st' : AppState env)
      → build (view env st.store) ≡ ok (e, x)
      → ReadBack env.yaml env.repo files (record e { updated_at = today }) back
      → same_content back e ≡ true
      → env.repo.is_file st.store (legacy_rel e.key) ≡ false
      → locked_write env rounds today build st ≡ some (done l, told, st')
      → (is_closed e ≡ false
          → (y : Entry) × (get env.yaml env.repo e.key st'.store ≡ ok (some y))
            × (same_content y e ≡ true))
        × ((sha : Text)
            → is_closed e ≡ true
            → l.archive_sha ≡ some sha
            → get env.yaml env.repo e.key st'.store ≡ ok none)
        × ((j : Text)
            → is_valid_key j ≡ true
            → e.key ≢ j
            → get env.yaml env.repo j st'.store ≡ get env.yaml env.repo j st.store)
  locked_write_lem rounds today build e back x l told st st' b reads same old h =
      let d = locked_write-done env rounds today build e x l told st st' b h in
      let u = d.upserted in
      let ((y, found, alike, _), others) =
        upsert_lem env.yaml env.repo files e back today st.store d.between u.outcome u.valid reads
          same u.upserted in
      let old' = upsert-legacy e today u.outcome st.store d.between u.valid old u.upserted in
      (
        λ live. (y, ap (get env.yaml env.repo e.key) (sym (d.kept live)) ∙ found, alike),
        λ sha closed s.
            let (gone, _) =
              Archived-lands e l d.between st'.store u.valid old' (d.archived closed) in
            gone sha s,
        λ j v ne. elim (Bool-cases (is_closed e)) [
          | inr live ↦ ap (get env.yaml env.repo j) (sym (d.kept live)) ∙ others j v ne
          | inl closed ↦
              let (_, rest) =
                Archived-lands e l d.between st'.store u.valid old' (d.archived closed) in
              rest j v ne ∙ others j v ne
        ],
      )
