-- ===== src/AsOf/Snapshot.antt =====
-- store.rs, index.rs: what the current version of a key follows through the walk.
use kyb.Common.{
  ℕ, suc, ◌≤◌, Bool, true, false, ◌&&◌, ◌≡◌, ◌⊎◌, refl, ap, ◌∙◌, inl, inr, Option, none, some, List,
  [], ◌∷◌, ◌++◌, length, Text, ◌==◌, leb, Option-cases, All, arith, none_not_some,
}
use kyb.Common.Int.{ℤ, leb_ℤ}
use kyb.Entry.{Entry, kind_knowledge}
use kyb.Entry.Comparing.{compared}
use kyb.Store.Walk.{HistoryDoc, Retraction, TreeCommit, Walked, put_last}
use kyb.AsOf.{number, is_candidate, newest, is_outranked, unless_outranked, current_version_per_key}
use kyb.AsOf.Numbers.{newest_bound, current-append, is_outranked-append, is_outranked_above}

abbrev pub shown : Option Entry → Option Entry
shown none = none
shown (some e) = some (compared e)

pub All-map :
    {A : Type 0} {P Q : A → Type 0} → ((a : A) → P a → Q a) → (xs : List A) → All P xs → All Q xs
All-map f [] h = tt
All-map f (x ∷ xs) (h, hs) = (f x h, All-map f xs hs)

pub All-append_one :
    {A : Type 0} (P : A → Type 0) (xs : List A) (x : A) → All P xs → P x → All P (xs ++ (x ∷ []))
All-append_one P [] x h p = (p, tt)
All-append_one P (y ∷ xs) x (h, hs) p = (h, All-append_one P xs x hs p)

module _ (key : Text) (at : ℤ) where
  abbrev pub current : Walked → Option (ℕ × HistoryDoc)
  current w = current_version_per_key at none (number 0 w.out) w.retractions key

  abbrev pub Standing : Option Entry → Walked → Type 0
  Standing none w =
      (current w ≡ none)
      ⊎ ((x : ℕ × HistoryDoc) × (current w ≡ some x) × ((x.1).entry.kind == kind_knowledge ≡ false))
  Standing (some p) w = (x : ℕ × HistoryDoc) × (current w ≡ some x) × ((x.1).entry ≡ p)

  pub record Follows (live : Option Entry) (w : Walked) : Type 0 where
    pub bounded : All (λ r. r.after ≤ length w.out) w.retractions
    pub agree : shown (w.last_content key) ≡ shown live
    pub stands : Standing (w.last_content key) w

  pub Standing-same :
      (o : Option Entry) (w w' : Walked) → current w' ≡ current w → Standing o w → Standing o w'
  Standing-same none w w' h (inl n) = inl (h ∙ n)
  Standing-same none w w' h (inr (x, c, k)) = inr (x, h ∙ c, k)
  Standing-same (some p) w w' h (x, c, k) = (x, h ∙ c, k)

  -- The walk with one document more.
  abbrev pub with_doc : TreeCommit → Entry → Walked → Walked
  with_doc c e w = record w {
    out = w.out ++ (record { sha = c.sha; committed_at = c.time; entry = e } ∷ []);
    last_content = put_last e.key (some e) w.last_content;
  }

  candidate :
      (d : HistoryDoc) (b : Bool)
      → (d.entry.key == key && leb_ℤ d.committed_at at) ≡ b
      → is_candidate key at none d ≡ b
  candidate d b h = ground (arith, h)

  pub with_doc-other :
      (c : TreeCommit) (e : Entry) (w : Walked)
      → (e.key == key && leb_ℤ c.time at) ≡ false
      → current (with_doc c e w) ≡ current w
  unfolding current_version_per_key
  with_doc-other c e w h =
      let d : HistoryDoc = record { sha = c.sha; committed_at = c.time; entry = e } in
      ap (unless_outranked key at w.retractions)
        (current-append key at w.out d ∙ rw (candidate d false h) refl)

  pub with_doc-own :
      (c : TreeCommit) (e : Entry) (w : Walked)
      → e.key == key ≡ true
      → leb_ℤ c.time at ≡ true
      → All (λ r. r.after ≤ length w.out) w.retractions
      → current (with_doc c e w)
        ≡ some (suc (length w.out), record { sha = c.sha; committed_at = c.time; entry = e })
  unfolding current_version_per_key
  with_doc-own c e w h t b =
      let d : HistoryDoc = record { sha = c.sha; committed_at = c.time; entry = e } in
      let both : (e.key == key && leb_ℤ c.time at) ≡ true = ground (arith, h, t) in
      let above = is_outranked_above key at w.retractions (length w.out) b in
      let best : newest key at none (number 0 (w.out ++ (d ∷ []))) none
          ≡ some (suc (length w.out), d) =
        current-append key at w.out d ∙ rw (candidate d true both) refl in
      ap (unless_outranked key at w.retractions) best ∙ rw above refl

  -- The walk with one retraction more.
  abbrev pub with_retraction : TreeCommit → Text → Walked → List Retraction
  with_retraction c k w =
      w.retractions ++ (record { key = k; committed_at = c.time; after = length w.out } ∷ [])

  unless-none :
      (best : Option (ℕ × HistoryDoc)) (rs : List Retraction)
      → best ≡ none
      → unless_outranked key at rs best ≡ none
  unless-none best rs h = ap (unless_outranked key at rs) h

  pub retraction-other :
      (c : TreeCommit) (k : Text) (w : Walked)
      → (k == key && leb_ℤ c.time at) ≡ false
      → current (record w { retractions = with_retraction c k w }) ≡ current w
  unfolding current_version_per_key
  retraction-other c k w h =
      let r : Retraction = record { key = k; committed_at = c.time; after = length w.out } in
      go (newest key at none (number 0 w.out) none) r h
    where
      go :
          (best : Option (ℕ × HistoryDoc)) (r : Retraction)
          → (r.key == key && leb_ℤ r.committed_at at) ≡ false
          → unless_outranked key at (w.retractions ++ (r ∷ [])) best
            ≡ unless_outranked key at w.retractions best
      go none r h = refl
      go (some x) r h =
          let more = is_outranked-append key at w.retractions r x.0 in
          let same : is_outranked key at (w.retractions ++ (r ∷ [])) x.0
              ≡ is_outranked key at w.retractions x.0 =
            ground (arith, more, h) in
          rw same refl

  -- The key's own retraction leaves it without a current version.
  pub retraction-own :
      (c : TreeCommit) (k : Text) (w : Walked)
      → k == key ≡ true
      → leb_ℤ c.time at ≡ true
      → current (record w { retractions = with_retraction c k w }) ≡ none
  unfolding current_version_per_key
  retraction-own c k w h t = elim (Option-cases (newest key at none (number 0 w.out) none)) [
    | inl n ↦ unless-none _ (with_retraction c k w) n
    | inr (x, n) ↦
        let r : Retraction = record { key = k; committed_at = c.time; after = length w.out } in
        let small = newest_bound key at 0 w.out none x (λ y e. absurd (none_not_some e)) n in
        let below : leb x.0 (length w.out) ≡ true = ground (arith, small) in
        let more = is_outranked-append key at w.retractions r x.0 in
        let outranked : is_outranked key at (with_retraction c k w) x.0 ≡ true =
          ground (arith, more, h, t, below) in
        rw (n, outranked) refl
  ]
