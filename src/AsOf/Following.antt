-- ===== src/AsOf/Following.antt =====
-- store.rs, index.rs: each step of the walk keeps the current version of a key in step with the tree.
use kyb.Common.{
  suc, ◌≤◌, Bool, true, false, ◌&&◌, ◌≡◌, subst, refl, sym, ap, ◌∙◌, inl, inr, Option, none, some,
  [], ◌∷◌, ◌++◌, length, length-append, Text, ◌==◌, eq_sound, if◌then◌else◌, Bool-cases, All, arith,
}
use kyb.Common.Int.{ℤ, leb_ℤ}
use kyb.Entry.{Entry}
use kyb.Entry.Comparing.{compared, same_content_iff}
use kyb.Store.Walk.{HistoryDoc, TreeCommit, Walked, is_same_as, push_version}
use kyb.AsOf.Snapshot.{
  shown, All-map, Standing, Follows, Standing-same, with_doc, with_doc-other, with_doc-own,
}

longer :
    (w : Walked) (d : HistoryDoc)
    → All (λ r. r.after ≤ length w.out) w.retractions
    → All (λ r. r.after ≤ length (w.out ++ (d ∷ []))) w.retractions
longer w d h =
    All-map {Q = λ r. r.after ≤ length (w.out ++ (d ∷ []))}
      (λ r b. let l = length-append w.out (d ∷ []) in omega (arith, b, l)) w.retractions h

is_same_as-shown :
    (o : Option Entry) (e : Entry) → is_same_as o e ≡ true → shown o ≡ some (compared e)
is_same_as-shown none e h = ground (arith, h)
is_same_as-shown (some p) e h = let (to, _) = same_content_iff p e in ap some (to h)

pub if_yes : {A : Type 0} (b : Bool) (x y : A) → b ≡ true → (if b then x else y) ≡ x
if_yes true x y h = refl
if_yes false x y h = ground (arith, h)

pub if_not : {A : Type 0} (b : Bool) (x y : A) → b ≡ false → (if b then x else y) ≡ y
if_not false x y h = refl
if_not true x y h = ground (arith, h)

module _ (key : Text) (at : ℤ) where
  pub follows :
      (w : Walked) (live last : Option Entry)
      → w.last_content key ≡ last
      → All (λ r. r.after ≤ length w.out) w.retractions
      → shown last ≡ shown live
      → Standing key at last w
      → Follows key at live w
  follows w live last h b a s = record {
    bounded = b;
    agree = ap shown h ∙ a;
    stands = subst (λ o. Standing key at o w) (sym h) s;
  }

  -- A version of another key, or of this one, in a commit that is early enough.
  with_doc-Follows :
      (c : TreeCommit) (e : Entry) (w : Walked) (live : Option Entry)
      → leb_ℤ c.time at ≡ true
      → Follows key at live w
      → Follows key at (if e.key == key then some e else live) (with_doc key at c e w)
  with_doc-Follows c e w live t f =
      let d : HistoryDoc = record { sha = c.sha; committed_at = c.time; entry = e } in
      let w' = with_doc key at c e w in
      let b = longer w d f.bounded in
      elim (Bool-cases (e.key == key)) [
        | inl own ↦
            let now = with_doc-own key at c e w own t f.bounded in
            let f' =
              follows w' (some e) (some e) (if_yes (e.key == key) (some e) (w.last_content key) own)
                b refl ((suc (length w.out), d), now, refl) in
            subst (λ z. Follows key at z w') (sym (if_yes (e.key == key) (some e) live own)) f'
        | inr other ↦
            let apart : (e.key == key && leb_ℤ c.time at) ≡ false = ground (arith, other) in
            let f' =
              follows w' live (w.last_content key)
                (if_not (e.key == key) (some e) (w.last_content key) other) b f.agree
                (Standing-same key at (w.last_content key) w w' (with_doc-other key at c e w apart)
                  f.stands) in
            subst (λ z. Follows key at z w') (sym (if_not (e.key == key) (some e) live other)) f'
      ]

  -- A version with the content that the key has already.
  kept-Follows :
      (e : Entry) (w : Walked) (live : Option Entry)
      → is_same_as (w.last_content e.key) e ≡ true
      → Follows key at live w
      → Follows key at (if e.key == key then some e else live) w
  kept-Follows e w live same f = elim (Bool-cases (e.key == key)) [
    | inl own ↦
        let at_key = ap w.last_content (eq_sound e.key key own) in
        let f' : Follows key at (some e) w = record {
          bounded = f.bounded;
          agree = ap shown (sym at_key) ∙ is_same_as-shown (w.last_content e.key) e same;
          stands = f.stands;
        } in
        subst (λ z. Follows key at z w) (sym (if_yes (e.key == key) (some e) live own)) f'
    | inr other ↦
        subst (λ z. Follows key at z w) (sym (if_not (e.key == key) (some e) live other)) f
  ]

  pub push_version-Follows :
      (c : TreeCommit) (e : Entry) (w : Walked) (live : Option Entry)
      → leb_ℤ c.time at ≡ true
      → Follows key at live w
      → Follows key at (if e.key == key then some e else live) (push_version c e w)
  unfolding push_version
  push_version-Follows c e w live t f = elim (Bool-cases (is_same_as (w.last_content e.key) e)) [
    | inl same ↦
        subst (λ z. Follows key at (if e.key == key then some e else live) z)
          (sym (if_yes (is_same_as (w.last_content e.key) e) w (with_doc key at c e w) same))
          (kept-Follows e w live same f)
    | inr new ↦
        subst (λ z. Follows key at (if e.key == key then some e else live) z)
          (sym (if_not (is_same_as (w.last_content e.key) e) w (with_doc key at c e w) new))
          (with_doc-Follows c e w live t f)
  ]
