-- ===== src/Links/Outgoing.antt =====
-- What `outgoing` lists of what an entry names, and how.
use kyb.Common.{
  Option, none, some, if◌then◌else◌, map, ◌++◌, Bool, true, false, not, ◌&&◌, ◌||◌, ◌≡◌, inl, inr,
  refl, ap, List, [], ◌∷◌, Text, ◌==◌, eq_sound, eq_refl, is_empty, contains, any, Bool-cases,
  arith,
}
use kyb.Entry.{Entry}
use kyb.Links.{Captures, Edge, add_edges, outgoing, body_links, via_parent, via_knowledge, via_link}

abbrev pub targets : Text → List Edge → Bool
targets k es = any (λ e. e.0 == k) es

-- No target is named twice.
abbrev pub Once : List Edge → Type 0
Once [] = Unit
Once ((k, via) ∷ es) = (targets k es ≡ false) × Once es

targets-add_edges :
    (seen : List Text) (es : List Edge) (k : Text)
    → targets k (add_edges seen es) ≡ (targets k es && not (is_empty k || contains seen k))
unfolding add_edges contains
targets-add_edges seen [] k = refl
targets-add_edges seen ((j, via) ∷ es) k =
    let added = targets-add_edges (j ∷ seen) es k in
    let passed = targets-add_edges seen es k in
    let same : j == k ≡ true → (is_empty j || contains seen j) ≡ (is_empty k || contains seen k) =
      λ e. ap (λ z. is_empty z || contains seen z) (eq_sound j k e) in
    elim (Bool-cases (is_empty j || contains seen j)) [
      | inl b ↦ rw b (ground (arith, passed, same, b))
      | inr b ↦ rw b (ground (arith, added, same, b))
    ]

Once-add_edges : (seen : List Text) (es : List Edge) → Once (add_edges seen es)
unfolding add_edges
Once-add_edges seen [] = tt
Once-add_edges seen ((j, via) ∷ es) =
    let added = Once-add_edges (j ∷ seen) es in
    let passed = Once-add_edges seen es in
    let no_more = targets-add_edges (j ∷ seen) es j in
    elim (Bool-cases (is_empty j || contains seen j)) [
      | inl b ↦ rw b passed
      | inr b ↦ rw b (unfold contains in ground (arith, no_more, eq_refl j), added)
    ]

-- How a list of edges says that it points at a key: the first that does.
abbrev pub via_of : Text → List Edge → Option Text
via_of k [] = none
via_of k ((j, via) ∷ es) = if j == k then some via else via_of k es

via_of-add_edges :
    (seen : List Text) (es : List Edge) (k : Text)
    → via_of k (add_edges seen es) ≡ (if is_empty k || contains seen k then none else via_of k es)
unfolding add_edges contains
via_of-add_edges seen [] k = ground arith
via_of-add_edges seen ((j, via) ∷ es) k =
    let added = via_of-add_edges (j ∷ seen) es k in
    let passed = via_of-add_edges seen es k in
    let same : j == k ≡ true → (is_empty j || contains seen j) ≡ (is_empty k || contains seen k) =
      λ e. ap (λ z. is_empty z || contains seen z) (eq_sound j k e) in
    elim (Bool-cases (is_empty j || contains seen j)) [
      | inl b ↦ rw b (ground (arith, passed, same, b))
      | inr b ↦ rw b (ground (arith, added, same, b))
    ]

via_of-map :
    (via k : Text) (ks : List Text)
    → via_of k (map (λ j. (j, via)) ks) ≡ (if contains ks k then some via else none)
unfolding contains
via_of-map via k [] = refl
via_of-map via k (j ∷ ks) = ground (arith, via_of-map via k ks)

via_of-append :
    (via k : Text) (ks : List Text) (es : List Edge)
    → via_of k (map (λ j. (j, via)) ks ++ es) ≡ (if contains ks k then some via else via_of k es)
unfolding contains
via_of-append via k [] es = refl
via_of-append via k (j ∷ ks) es = ground (arith, via_of-append via k ks es)

-- An entry points at a key if it is not the empty text or its own key and the entry names it: as its
-- parent, or else among its knowledge, or else by a link of its body, and the edge says by the first of
-- these that does. No other key is pointed at, and none twice.
pub outgoing_lem :
    (captures : Captures) (e : Entry) (k : Text)
    → (via_of k (outgoing captures e) ≡ (
        if is_empty k || e.key == k
        then none
        else if e.parent_task == k
        then some via_parent
        else if contains e.knowledge k
        then some via_knowledge
        else if contains (body_links captures e.body) k
        then some via_link
        else none))
      × Once (outgoing captures e)
unfolding outgoing
outgoing_lem captures e k =
    let linked : List Edge = map (λ j. (j, via_link)) (body_links captures e.body) in
    let all = (e.parent_task, via_parent) ∷ map (λ j. (j, via_knowledge)) e.knowledge ++ linked in
    let first = via_of-add_edges (e.key ∷ []) all k in
    let known = via_of-append via_knowledge k e.knowledge linked in
    let by_link = via_of-map via_link k (body_links captures e.body) in
    (unfold contains in ground (arith, first, known, by_link), Once-add_edges (e.key ∷ []) all)
