-- ===== src/AsOf/Instants.antt =====
-- store.rs, index.rs: what a search as of an instant sees of the history.
use kyb.Common.{
  ℕ, Bool, true, false, ◌&&◌, ◌≡◌, ◌⊎◌, refl, sym, ap, ◌∙◌, inl, inr, Option, none, some, List, [],
  ◌∷◌, ◌++◌, Text, ◌==◌, if◌then◌else◌, All, arith, some_same, none_not_some,
}
use kyb.Common.Int.{ℤ, leb_ℤ}
use kyb.Entry.{Entry, kind_knowledge}
use kyb.Entry.Comparing.{same_content, compared, same_content_iff}
use kyb.Entry.Markdown.{Yaml}
use kyb.Store.Walk.{
  HistoryDoc, TreeCommit, Walked, nothing_walked, is_same_as, writes, gone, push_version,
  push_versions, is_written, retract, retract_all, walk_commit, walk_from,
  walk_history_and_retractions,
}
use kyb.AsOf.{number, newest, current_version_per_key}
use kyb.AsOf.Snapshot.{
  shown, current, Standing, Follows, with_doc, with_doc-other, with_retraction, retraction-other,
}
use kyb.AsOf.Commits.{
  put_all, commit_key, tree_after, push_versions-Follows, retract_all-Follows, forgotten,
}

module _ (key : Text) (at : ℤ) where
  start-Follows : Follows key at none nothing_walked
  unfolding current_version_per_key newest number
  start-Follows = record { bounded = tt; agree = refl; stands = inl refl }

  early-Follows :
      (yaml : Yaml) (cs : List TreeCommit) (w : Walked) (live : Option Entry)
      → All (λ c. leb_ℤ c.time at ≡ true) cs
      → Follows key at live w
      → Follows key at (tree_after yaml key cs live) (walk_from yaml cs w)
  unfolding tree_after walk_from commit_key walk_commit
  early-Follows yaml [] w live h f = f
  early-Follows yaml (c ∷ cs) w live (t, ts) f =
      let es = writes yaml c.deltas in
      let f' = push_versions-Follows key at c es w live t f in
      early-Follows yaml cs (walk_commit yaml c w) (commit_key yaml key c live) ts (
        retract_all-Follows key at c es (gone yaml c.deltas) (put_all key es live)
          (push_versions c es w) t f')

  late : (c : TreeCommit) (b : Bool) → leb_ℤ c.time at ≡ false → (b && leb_ℤ c.time at) ≡ false
  late c b h = ground (arith, h)

  push_version-late :
      (c : TreeCommit) (e : Entry) (w : Walked)
      → leb_ℤ c.time at ≡ false
      → current key at (push_version c e w) ≡ current key at w
  unfolding push_version
  push_version-late c e w h =
      elim (is_same_as (w.last_content e.key) e)
        as (λ b. current key at (if b then w else with_doc key at c e w) ≡ current key at w) [
          | true ↦ refl
          | false ↦ with_doc-other key at c e w (late c (e.key == key) h)
        ]

  push_versions-late :
      (c : TreeCommit) (es : List Entry) (w : Walked)
      → leb_ℤ c.time at ≡ false
      → current key at (push_versions c es w) ≡ current key at w
  unfolding push_versions
  push_versions-late c [] w h = refl
  push_versions-late c (e ∷ es) w h =
      push_versions-late c es (push_version c e w) h ∙ push_version-late c e w h

  retract-late :
      (c : TreeCommit) (k : Text) (prev : Option Entry) (w : Walked)
      → leb_ℤ c.time at ≡ false
      → current key at (retract c k prev w) ≡ current key at w
  unfolding retract
  retract-late c k none w h = refl
  retract-late c k (some prev) w h =
      elim (prev.kind == kind_knowledge)
        as (λ b.
          current key at
            (forgotten key at k (if b then with_retraction key at c k w else w.retractions) w)
          ≡ current key at w) [
            | true ↦ retraction-other key at c k w (late c (k == key) h)
            | false ↦ refl
          ]

  retract_all-late :
      (c : TreeCommit) (es : List Entry) (ks : List Text) (w : Walked)
      → leb_ℤ c.time at ≡ false
      → current key at (retract_all c es ks w) ≡ current key at w
  unfolding retract_all
  retract_all-late c es [] w h = refl
  retract_all-late c es (k ∷ ks) w h =
      let next = retract c k (w.last_content k) w in
      retract_all-late c es ks (if is_written es k then w else next) h
      ∙ elim (is_written es k) as (λ b. current key at (if b then w else next) ≡ current key at w) [
        | true ↦ refl
        | false ↦ retract-late c k (w.last_content k) w h
      ]

  walk_from-late :
      (yaml : Yaml) (cs : List TreeCommit) (w : Walked)
      → All (λ c. leb_ℤ c.time at ≡ false) cs
      → current key at (walk_from yaml cs w) ≡ current key at w
  unfolding walk_from walk_commit
  walk_from-late yaml [] w h = refl
  walk_from-late yaml (c ∷ cs) w (h, hs) =
      let es = writes yaml c.deltas in
      walk_from-late yaml cs (walk_commit yaml c w) hs
      ∙ retract_all-late c es (gone yaml c.deltas) (push_versions c es w) h
      ∙ push_versions-late c es w h

walk_from_append :
    (yaml : Yaml) (before after : List TreeCommit) (w : Walked)
    → walk_from yaml (before ++ after) w ≡ walk_from yaml after (walk_from yaml before w)
unfolding walk_from
walk_from_append yaml [] after w = refl
walk_from_append yaml (c ∷ before) after w =
    walk_from_append yaml before after (walk_commit yaml c w)

-- What is current at an instant, of the whole history.
abbrev pub snapshot : Yaml → ℤ → List TreeCommit → Text → Option (ℕ × HistoryDoc)
snapshot yaml at commits =
    let (docs, retractions) = walk_history_and_retractions yaml commits in
    current_version_per_key at none (number 0 docs) retractions

Standing-live :
    (key : Text) (at : ℤ) (w : Walked) (live last : Option Entry)
    → shown last ≡ shown live
    → Standing key at last w
    → ((e : Entry)
        → live ≡ some e
        → (x : ℕ × HistoryDoc) × (current key at w ≡ some x) × (same_content (x.1).entry e ≡ true))
      × (live ≡ none
          → (current key at w ≡ none)
            ⊎ ((x : ℕ × HistoryDoc) × (current key at w ≡ some x)
                × ((x.1).entry.kind == kind_knowledge ≡ false)))
Standing-live key at w live none h s = (λ e is. absurd (none_not_some (h ∙ ap shown is)), λ is. s)
Standing-live key at w live (some p) h (x, now, same) = (
  λ e is.
      let (_, from) = same_content_iff (x.1).entry e in
      (x, now, from (ap compared same ∙ some_same (h ∙ ap shown is))),
  λ is. absurd (none_not_some (sym (h ∙ ap shown is))),
)

-- Where every commit up to some point is not later than an instant and every commit after it is, the snapshot
-- at the instant has for a key that is in the tree at that point a version with the content that it has there,
-- and for a key that is not in the tree no version, unless the newest one is that of an
-- incident or a task.
pub snapshot_lem :
    (yaml : Yaml) (key : Text) (at : ℤ) (before after : List TreeCommit)
    → All (λ c. leb_ℤ c.time at ≡ true) before
    → All (λ c. leb_ℤ c.time at ≡ false) after
    → ((e : Entry)
        → tree_after yaml key before none ≡ some e
        → (x : ℕ × HistoryDoc) × (snapshot yaml at (before ++ after) key ≡ some x)
          × (same_content (x.1).entry e ≡ true))
      × (tree_after yaml key before none ≡ none
          → (snapshot yaml at (before ++ after) key ≡ none)
            ⊎ ((x : ℕ × HistoryDoc) × (snapshot yaml at (before ++ after) key ≡ some x)
                × ((x.1).entry.kind == kind_knowledge ≡ false)))
unfolding walk_history_and_retractions
snapshot_lem yaml key at before after early late_ones =
    let w = walk_from yaml before nothing_walked in
    let f = early-Follows key at yaml before nothing_walked none early (start-Follows key at) in
    let same =
      ap (current key at) (walk_from_append yaml before after nothing_walked)
      ∙ walk_from-late key at yaml after w late_ones in
    let (there, away) =
      Standing-live key at w (tree_after yaml key before none) (w.last_content key) f.agree
        f.stands in
    (
      λ e is. let (x, now, alike) = there e is in (x, same ∙ now, alike),
      λ is. elim (away is) [
        | inl n ↦ inl (same ∙ n)
        | inr (x, now, other) ↦ inr (x, same ∙ now, other)
      ],
    )
