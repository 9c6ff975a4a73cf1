-- ===== src/Links/Reversed.antt =====
-- The two directions of the index.
use kyb.Common.{
  Bool, true, false, ◌&&◌, ◌||◌, ◌≡◌, inl, inr, refl, ap, ◌∙◌, List, [], ◌∷◌, ◌++◌, Text, ◌==◌,
  eq_sound, any, if◌then◌else◌, Bool-cases, arith, subst,
}
use kyb.Deadline.{is_some}
use kyb.Entry.{Entry}
use kyb.Links.{
  Captures, Edge, LinkIndex, empty_index, outgoing, push_edges, absorb, absorb_all, build,
}

abbrev pub has_edge : Text → Text → List Edge → Bool
has_edge k via es = any (λ e. e.0 == k && e.1 == via) es

any-append {ℓ} :
    {A : Type ℓ} (p : A → Bool) (xs ys : List A) → any p (xs ++ ys) ≡ (any p xs || any p ys)
any-append p [] ys = refl
any-append p (x ∷ xs) ys = ground (arith, any-append p xs ys)

has_edge-push_edges :
    (from : Text) (es : List Edge) (inc : Text → List Edge) (source via t : Text)
    → has_edge source via (push_edges from es inc t)
      ≡ (has_edge source via (inc t) || (from == source && has_edge t via es))
unfolding push_edges
has_edge-push_edges from [] inc source via t = ground arith
has_edge-push_edges from ((to, v) ∷ es) inc source via t =
    let later =
      has_edge-push_edges from es (λ t. if to == t then inc t ++ (from, v) ∷ [] else inc t) source
        via t in
    let grown = any-append (λ e. e.0 == source && e.1 == via) (inc t) ((from, v) ∷ []) in
    elim (Bool-cases (to == t)) [
      | inl e ↦ later ∙ rw e (ground (arith, grown))
      | inr e ↦ later ∙ rw e refl
    ]

-- What holds while the index is built: the directions agree, and a key that is not in has no edges.
record Mirrors (ix : LinkIndex) : Type 0 where
  agree : (source to via : Text) → has_edge source via (ix.inc to) ≡ has_edge to via (ix.out source)
  absent : (k : Text) → is_some (ix.briefs k) ≡ false → ix.out k ≡ []

absorb-Mirrors :
    (captures : Captures) (archived : Bool) (e : Entry) (ix : LinkIndex)
    → Mirrors ix
    → Mirrors (absorb captures archived e ix)
unfolding absorb
absorb-Mirrors captures archived e ix m = elim (Bool-cases (is_some (ix.briefs e.key))) [
  | inl known ↦ rw known m
  | inr fresh ↦
      let edges = outgoing captures e in
      rw fresh (record {
        agree = λ source to via.
            let grown = has_edge-push_edges e.key edges ix.inc source via to in
            let before = m.agree source to via in
            elim (Bool-cases (e.key == source)) [
              | inl same ↦
                  let none_before : ix.out source ≡ [] =
                    subst (λ k. ix.out k ≡ []) (eq_sound e.key source same)
                      (m.absent e.key fresh) in
                  let gone : has_edge source via (ix.inc to) ≡ false =
                    before ∙ ap (has_edge to via) none_before in
                  grown ∙ rw (gone, same) refl
              | inr other ↦ grown ∙ rw (other, before) (ground arith)
            ];
        absent = λ k h. elim (Bool-cases (e.key == k)) [
          | inl same ↦ ground (arith, same, h)
          | inr other ↦ rw other (m.absent k (rw other at h))
        ];
      })
]

absorb_all-Mirrors :
    (captures : Captures) (archived : Bool) (es : List Entry) (ix : LinkIndex)
    → Mirrors ix
    → Mirrors (absorb_all captures archived es ix)
unfolding absorb_all
absorb_all-Mirrors captures archived [] ix m = m
absorb_all-Mirrors captures archived (e ∷ es) ix m =
    absorb_all-Mirrors captures archived es (absorb captures archived e ix)
      (absorb-Mirrors captures archived e ix m)

empty-Mirrors : Mirrors empty_index
empty-Mirrors = record { agree = λ source to via. refl; absent = λ k h. refl }

-- However many entries the tree and the archive hold, the incoming edges of a key are exactly the
-- outgoing edges of the others read backwards, each with how its author wrote it.
pub build_lem :
    (captures : Captures) (head archived : List Entry) (source to via : Text)
    → has_edge source via ((build captures head archived).inc to)
      ≡ has_edge to via ((build captures head archived).out source)
unfolding build
build_lem captures head archived source to via =
    (absorb_all-Mirrors captures true archived (absorb_all captures false head empty_index)
        (absorb_all-Mirrors captures false head empty_index empty-Mirrors)).agree
      source to via
