-- ===== src/AsOf/Commits.antt =====
-- store.rs, index.rs: a whole commit, and a whole history, up to an instant and past it.
use kyb.Common.{
  ◌≤◌, Bool, true, false, not, ◌&&◌, ◌||◌, ◌≡◌, subst, refl, sym, ap, ◌∙◌, inl, inr, Option, none,
  some, List, [], ◌∷◌, length, Text, ◌==◌, eq_sound, contains, if◌then◌else◌, Bool-cases, All,
  arith, none_not_some,
}
use kyb.Common.Int.{ℤ, leb_ℤ}
use kyb.Entry.{Entry, kind_knowledge}
use kyb.Entry.Markdown.{Yaml}
use kyb.Store.Walk.{
  Retraction, TreeCommit, Walked, put_last, writes, gone, push_version, push_versions, is_written,
  retract, retract_all,
}
use kyb.AsOf.Snapshot.{
  shown, All-append_one, Standing, Follows, Standing-same, with_retraction, retraction-other,
  retraction-own,
}
use kyb.AsOf.Following.{follows, push_version-Follows, if_yes, if_not}

-- The content of a key after the writes of a commit: the last of them wins.
unfoldable pub put_all : Text → List Entry → Option Entry → Option Entry
put_all key [] live = live
put_all key (e ∷ es) live = put_all key es (if e.key == key then some e else live)

-- The content of a key after a commit: a file that is removed and not written is gone.
unfoldable pub commit_key : Yaml → Text → TreeCommit → Option Entry → Option Entry
commit_key yaml key c live =
    if not (is_written (writes yaml c.deltas) key) && contains (gone yaml c.deltas) key
    then none
    else put_all key (writes yaml c.deltas) live

unfoldable pub tree_after : Yaml → Text → List TreeCommit → Option Entry → Option Entry
tree_after yaml key [] live = live
tree_after yaml key (c ∷ cs) live = tree_after yaml key cs (commit_key yaml key c live)

module _ (key : Text) (at : ℤ) where
  pub push_versions-Follows :
      (c : TreeCommit) (es : List Entry) (w : Walked) (live : Option Entry)
      → leb_ℤ c.time at ≡ true
      → Follows key at live w
      → Follows key at (put_all key es live) (push_versions c es w)
  unfolding put_all push_versions
  push_versions-Follows c [] w live t f = f
  push_versions-Follows c (e ∷ es) w live t f =
      push_versions-Follows c es (push_version c e w) (if e.key == key then some e else live) t
        (push_version-Follows key at c e w live t f)

  -- The walk that has forgotten a key, with its retraction or without.
  abbrev pub forgotten : Text → List Retraction → Walked → Walked
  forgotten k rs w = record {
    out = w.out;
    retractions = rs;
    last_content = put_last k none w.last_content;
  }

  with_retraction-bounded :
      (c : TreeCommit) (k : Text) (w : Walked)
      → All (λ r. r.after ≤ length w.out) w.retractions
      → All (λ r. r.after ≤ length w.out) (with_retraction key at c k w)
  with_retraction-bounded c k w h =
      All-append_one (λ r. r.after ≤ length w.out) w.retractions
        (record { key = k; committed_at = c.time; after = length w.out }) h (omega arith)

  retract-own :
      (c : TreeCommit) (k : Text) (prev : Entry) (w : Walked) (live : Option Entry)
      → leb_ℤ c.time at ≡ true
      → k == key ≡ true
      → w.last_content key ≡ some prev
      → Follows key at live w
      → Follows key at none (retract c k (some prev) w)
  unfolding retract
  retract-own c k prev w live t own last f =
      let (x, now, same) = subst (λ o. Standing key at o w) last f.stands in
      let forgot = if_yes (k == key) none (w.last_content key) own in
      elim (Bool-cases (prev.kind == kind_knowledge)) [
        | inl known ↦
            subst (λ rs. Follows key at none (forgotten k rs w))
              (sym (
                if_yes (prev.kind == kind_knowledge) (with_retraction key at c k w) w.retractions
                  known))
              (follows key at (forgotten k (with_retraction key at c k w) w) none none forgot
                (with_retraction-bounded c k w f.bounded) refl
                (inl (retraction-own key at c k w own t)))
        | inr other ↦
            subst (λ rs. Follows key at none (forgotten k rs w))
              (sym (
                if_not (prev.kind == kind_knowledge) (with_retraction key at c k w) w.retractions
                  other))
              (follows key at (forgotten k w.retractions w) none none forgot f.bounded refl
                (inr (x, now, ap (λ e. e.kind == kind_knowledge) same ∙ other)))
      ]

  retract-other :
      (c : TreeCommit) (k : Text) (prev live : Option Entry) (w : Walked)
      → k == key ≡ false
      → Follows key at live w
      → Follows key at live (retract c k prev w)
  unfolding retract
  retract-other c k none live w other f = f
  retract-other c k (some prev) live w other f =
      let kept = if_not (k == key) none (w.last_content key) other in
      let apart : (k == key && leb_ℤ c.time at) ≡ false = ground (arith, other) in
      elim (Bool-cases (prev.kind == kind_knowledge)) [
        | inl known ↦
            subst (λ rs. Follows key at live (forgotten k rs w))
              (sym (
                if_yes (prev.kind == kind_knowledge) (with_retraction key at c k w) w.retractions
                  known))
              (follows key at (forgotten k (with_retraction key at c k w) w) live
                (w.last_content key) kept (with_retraction-bounded c k w f.bounded) f.agree
                (Standing-same key at (w.last_content key) w
                  (forgotten k (with_retraction key at c k w) w)
                  (retraction-other key at c k w apart) f.stands))
        | inr not_known ↦
            subst (λ rs. Follows key at live (forgotten k rs w))
              (sym (
                if_not (prev.kind == kind_knowledge) (with_retraction key at c k w) w.retractions
                  not_known))
              (follows key at (forgotten k w.retractions w) live (w.last_content key) kept f.bounded
                f.agree
                (Standing-same key at (w.last_content key) w (forgotten k w.retractions w) refl
                  f.stands))
      ]

  -- A key that was not there is not there when its file is removed.
  shown-none : (live : Option Entry) → none ≡ shown live → live ≡ none
  shown-none none h = refl
  shown-none (some e) h = absurd (none_not_some h)

  retract-here :
      (c : TreeCommit) (k : Text) (prev live : Option Entry) (w : Walked)
      → leb_ℤ c.time at ≡ true
      → k == key ≡ true
      → w.last_content key ≡ prev
      → Follows key at live w
      → Follows key at none (retract c k prev w)
  unfolding retract
  retract-here c k none live w t own last f =
      subst (λ z. Follows key at z w) (shown-none live (ap shown (sym last) ∙ f.agree)) f
  retract-here c k (some prev) live w t own last f = retract-own c k prev w live t own last f

  abbrev next_walk : TreeCommit → List Entry → Text → Walked → Walked
  next_walk c es k w = if is_written es k then w else retract c k (w.last_content k) w

  retract_next :
      (c : TreeCommit) (es : List Entry) (k : Text) (live : Option Entry) (w : Walked)
      → leb_ℤ c.time at ≡ true
      → Follows key at live w
      → Follows key at
          (if k == key && not (is_written es key) then none else live)
          (next_walk c es k w)
  retract_next c es k live w t f = elim (Bool-cases (k == key)) [
    | inr other ↦
        let apart : (k == key && not (is_written es key)) ≡ false = ground (arith, other) in
        subst (λ z. Follows key at z (next_walk c es k w)) (sym (if_not _ none live apart))
          (elim (is_written es k)
            as (λ b. Follows key at live (if b then w else retract c k (w.last_content k) w)) [
              | true ↦ f
              | false ↦ retract-other c k (w.last_content k) live w other f
            ])
    | inl own ↦
        let same = eq_sound k key own in
        elim (Bool-cases (is_written es key)) [
          | inl there ↦
              let stays : (k == key && not (is_written es key)) ≡ false = ground (arith, there) in
              let w_same =
                if_yes (is_written es k) w (retract c k (w.last_content k) w)
                  (ap (is_written es) same ∙ there) in
              subst (λ z. Follows key at z (next_walk c es k w)) (sym (if_not _ none live stays))
                (subst (Follows key at live) (sym w_same) f)
          | inr away ↦
              let goes : (k == key && not (is_written es key)) ≡ true = ground (arith, own, away) in
              let w_next =
                if_not (is_written es k) w (retract c k (w.last_content k) w)
                  (ap (is_written es) same ∙ away) in
              subst (λ z. Follows key at z (next_walk c es k w)) (sym (if_yes _ none live goes))
                (subst (Follows key at none) (sym w_next) (
                  retract-here c k (w.last_content k) live w t own (ap w.last_content (sym same))
                    f))
        ]
  ]

  gone_first :
      (written here later : Bool) (live : Option Entry)
      → (if not written && later then none else (if here && not written then none else live))
        ≡ (if not written && (here || later) then none else live)
  gone_first true true later live = refl
  gone_first true false later live = refl
  gone_first false true true live = refl
  gone_first false true false live = refl
  gone_first false false later live = refl

  pub retract_all-Follows :
      (c : TreeCommit) (es : List Entry) (ks : List Text) (live : Option Entry) (w : Walked)
      → leb_ℤ c.time at ≡ true
      → Follows key at live w
      → Follows key at
          (if not (is_written es key) && contains ks key then none else live)
          (retract_all c es ks w)
  unfolding retract_all contains
  retract_all-Follows c es [] live w t f =
      subst (λ z. Follows key at z w) (sym (gone_none (is_written es key) live)) f
    where
      gone_none : (b : Bool) (live : Option Entry) → (if not b && false then none else live) ≡ live
      gone_none true live = refl
      gone_none false live = refl
  retract_all-Follows c es (k ∷ ks) live w t f =
      let live' = if k == key && not (is_written es key) then none else live in
      subst (λ z. Follows key at z (retract_all c es (k ∷ ks) w))
        (gone_first (is_written es key) (k == key) (contains ks key) live)
        (retract_all-Follows c es ks live' (next_walk c es k w) t (retract_next c es k live w t f))
