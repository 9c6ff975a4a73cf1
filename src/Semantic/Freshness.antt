-- ===== src/Semantic/Freshness.antt =====
-- Which vectors can be searched, whatever the order of the steps.
use kyb.Common.{
  ℕ, true, ◌≡◌, refl, Option, none, some, List, [], ◌∷◌, ◌++◌, Text, ◌==◌, eq_iff, All, arith,
  Bool-cases, inl, inr, sym, subst,
}
use kyb.Semantic.Tickets.{UpdateTicket, VectorState, initial, is_expected, put, install, reset}
use kyb.Semantic.Steps.{
  World, Step, begin_upsert, invalidate, begin_rebuild, land, Reach, start, next, forget, zip_texts,
  Listed, Owned, IsFresh, Inv,
}
use kyb.Semantic.Issuing.{next_ticket-shape, ticketed-Inv, upsert-Inv, tickets_for-Inv, forget-off}

is_expected-eq : (e : Option ℕ) (g : ℕ) → is_expected e g ≡ true → e ≡ some g
is_expected-eq none g h = ground arith
is_expected-eq (some n) g h = ground arith

module _ {V : Type 0} (embed : Text → V) where
  put-IsFresh :
      (m : Text → Option Text) (key x : Text) (vs : List (Text × V))
      → m key ≡ some x
      → All (IsFresh embed m) vs
      → All (IsFresh embed m) (put key (embed x) vs)
  unfolding put
  put-IsFresh m key x [] e h = ((x, e, refl), tt)
  put-IsFresh m key x ((k, w) ∷ vs) e (h, hs) = elim (Bool-cases (k == key)) [
    | inl same ↦ rw same ((x, ground (arith, eq_iff k key), refl), hs)
    | inr other ↦ rw other (h, put-IsFresh m key x vs e hs)
  ]

  All-Listed :
      (P : UpdateTicket × Text → Type 0) (p : UpdateTicket × Text) (ps : List (UpdateTicket × Text))
      → All P ps
      → Listed p ps
      → P p
  All-Listed P p (q ∷ qs) (h, hs) (inl e) = subst P (sym e) h
  All-Listed P p (q ∷ qs) (h, hs) (inr l) = All-Listed P p qs hs l
  All-Listed P p [] h l = absurd l

  install-Inv :
      (t : UpdateTicket) (x : Text) (s : VectorState V) (m : Text → Option Text)
      (ps : List (UpdateTicket × Text))
      → Listed (t, x) ps
      → Inv embed s m ps
      → Inv embed (install t (embed x) s).1 m ps
  unfolding install
  install-Inv t x s m ps l v = elim (Bool-cases (is_expected (s.expected t.key) t.generation)) [
    | inl e ↦ rw e (record {
      bounded = v.bounded;
      owned = v.owned;
      fresh =
          put-IsFresh m t.key x s.vectors
            ((All-Listed (Owned s m) (t, x) ps v.owned l).1 (is_expected-eq _ _ e)) v.fresh;
    })
    | inr e ↦ rw e v
  ]

  All-append :
      (P : UpdateTicket × Text → Type 0) (ps qs : List (UpdateTicket × Text))
      → All P ps
      → All P qs
      → All P (ps ++ qs)
  All-append P [] qs h k = k
  All-append P (p ∷ ps) qs (h, hs) k = (h, All-append P ps qs hs k)

  cleared-Inv :
      (s : VectorState V) (m : Text → Option Text) (ps : List (UpdateTicket × Text))
      → All (Owned s m) ps
      → Inv embed (record s { expected = λ k. none; vectors = [] }) (λ k. none) ps
  cleared-Inv s m ps h = record { bounded = λ k g e. ground arith; owned = aged ps h; fresh = tt }
    where
      aged :
          (qs : List (UpdateTicket × Text))
          → All (Owned s m) qs
          → All (Owned (record s { expected = λ k. none; vectors = [] }) (λ k. none)) qs
      aged [] h = tt
      aged (q ∷ qs) (h, hs) = ((h.0, λ e. ground arith), aged qs hs)

  Step-Inv :
      {w u : World V}
      → Step embed w u
      → Inv embed w.state w.current w.pending
      → Inv embed u.state u.current u.pending
  Step-Inv {w} (begin_upsert key text ticket s e) v =
      let (te, se) = next_ticket-shape embed key w.state s ticket e in
      rw (te, se) (upsert-Inv embed key text w.state w.current w.pending v)
  Step-Inv {w} (invalidate key ticket s e) v =
      let (te, se) = next_ticket-shape embed key w.state s ticket e in
      rw se (
        ticketed-Inv embed key w.state w.current (forget key w.current) w.pending
          (forget-off embed key w.current) v)
  Step-Inv {w} (begin_rebuild docs tickets s e) v =
      let c = cleared-Inv w.state w.current w.pending v.owned in
      let (r, zipped) =
        tickets_for-Inv embed docs _ s tickets (λ k. none) w.pending c (unfold reset in e) in
      record {
        bounded = r.bounded;
        owned = All-append _ (zip_texts tickets docs) w.pending zipped r.owned;
        fresh = r.fresh;
      }
  Step-Inv {w} (land ticket text l) v = install-Inv ticket text w.state w.current w.pending l v

  Reach-Inv : {w : World V} → Reach embed w → Inv embed w.state w.current w.pending
  unfolding initial
  Reach-Inv start = record { bounded = λ k g e. ground arith; owned = tt; fresh = tt }
  Reach-Inv (next r s) = Step-Inv s (Reach-Inv r)

  -- However updates, deletions, rebuilds and late embeddings interleave, every vector that is
  -- searched is the embedding of the text that is current for its key; so a key whose entry was
  -- deleted has none.
  pub Reach-IsFresh : {w : World V} → Reach embed w → All (IsFresh embed w.current) w.state.vectors
  Reach-IsFresh r = (Reach-Inv r).fresh
