-- ===== src/Semantic/Issuing.antt =====
-- What a new ticket keeps, and what a rebuild's row of tickets does.
use kyb.Common.{
  suc, not, ◌≡◌, ◌≢◌, Option, some, List, [], ◌∷◌, map, Text, ◌==◌, eq_iff, All, retain, arith,
  Bool-cases, Option-cases, inl, inr, ◌∙◌,
}
use kyb.Semantic.Tickets.{UpdateTicket, VectorState, insert, next_ticket, tickets_for}
use kyb.Semantic.Steps.{forget, currents, zip_texts, Owned, IsFresh, Inv}

module _ {V : Type 0} (embed : Text → V) where
  abbrev pub ticketed : Text → VectorState V → VectorState V
  ticketed key s = record {
    next_generation = suc s.next_generation;
    expected = insert key (suc s.next_generation) s.expected;
    vectors = retain (λ kv. not (kv.0 == key)) s.vectors;
  }

  pub next_ticket-shape :
      (key : Text) (s s' : VectorState V) (t : UpdateTicket)
      → next_ticket key s ≡ some (t, s')
      → (t ≡ record { key = key; generation = suc s.next_generation }) × (s' ≡ ticketed key s)
  unfolding next_ticket
  next_ticket-shape key s s' t h = ground arith

  abbrev AgreeOff : Text → (Text → Option Text) → (Text → Option Text) → Type 0
  AgreeOff key m m' = (j : Text) → j ≢ key → m' j ≡ m j

  ticketed-Owned :
      (key : Text) (s : VectorState V) (m m' : Text → Option Text) (ps : List (UpdateTicket × Text))
      → AgreeOff key m m'
      → All (Owned s m) ps
      → All (Owned (ticketed key s) m') ps
  ticketed-Owned key s m m' [] off h = tt
  ticketed-Owned key s m m' ((t, x) ∷ ps) off (h, hs) = (
    (omega arith, λ e. ground (arith, eq_iff t.key key, off t.key)),
    ticketed-Owned key s m m' ps off hs,
  )

  ticketed-IsFresh :
      (key : Text) (m m' : Text → Option Text) (vs : List (Text × V))
      → AgreeOff key m m'
      → All (IsFresh embed m) vs
      → All (IsFresh embed m') (retain (λ kv. not (kv.0 == key)) vs)
  ticketed-IsFresh key m m' [] off h = tt
  ticketed-IsFresh key m m' ((k, v) ∷ vs) off (h, hs) = elim (Bool-cases (k == key)) [
    | inl e ↦ rw e (ticketed-IsFresh key m m' vs off hs)
    | inr e ↦ rw e (
      (h.0, off k (λ q. ground (arith, eq_iff k key)) ∙ h.1, h.2),
      ticketed-IsFresh key m m' vs off hs,
    )
  ]

  pub ticketed-Inv :
      (key : Text) (s : VectorState V) (m m' : Text → Option Text) (ps : List (UpdateTicket × Text))
      → AgreeOff key m m'
      → Inv embed s m ps
      → Inv embed (ticketed key s) m' ps
  ticketed-Inv key s m m' ps off v = record {
    bounded = λ k g e. ground (arith, v.bounded k g);
    owned = ticketed-Owned key s m m' ps off v.owned;
    fresh = ticketed-IsFresh key m m' s.vectors off v.fresh;
  }

  -- A new ticket owns the text that its update makes current.
  ticketed-Owned_self :
      (key x : Text) (s : VectorState V) (m : Text → Option Text)
      → Owned
          (ticketed key s)
          (insert key x m)
          (record { key = key; generation = suc s.next_generation }, x)
  ticketed-Owned_self key x s m = (omega arith, λ e. ground (arith, eq_iff key key))

  pub insert-off : (key x : Text) (m : Text → Option Text) → AgreeOff key m (insert key x m)
  insert-off key x m j ne = ground (arith, eq_iff j key)

  pub forget-off : (key : Text) (m : Text → Option Text) → AgreeOff key m (forget key m)
  forget-off key m j ne = ground (arith, eq_iff j key)

  pub upsert-Inv :
      (key x : Text) (s : VectorState V) (m : Text → Option Text) (ps : List (UpdateTicket × Text))
      → Inv embed s m ps
      → Inv embed
          (ticketed key s)
          (insert key x m)
          ((record { key = key; generation = suc s.next_generation }, x) ∷ ps)
  upsert-Inv key x s m ps v =
      let w = ticketed-Inv key s m (insert key x m) ps (insert-off key x m) v in
      record {
        bounded = w.bounded;
        owned = (ticketed-Owned_self key x s m, w.owned);
        fresh = w.fresh;
      }

  abbrev pub ticket_of : Text → VectorState V → UpdateTicket
  ticket_of key s = record { key = key; generation = suc s.next_generation }

  tickets_for-cons :
      (key : Text) (keys : List Text) (s s' : VectorState V) (ts : List UpdateTicket)
      → tickets_for (key ∷ keys) s ≡ some (ts, s')
      → (rest : List UpdateTicket) × (ts ≡ ticket_of key s ∷ rest)
        × (tickets_for keys (ticketed key s) ≡ some (rest, s'))
  unfolding tickets_for
  tickets_for-cons key keys s s' ts h = elim (Option-cases (next_ticket key s)) [
    | inl e ↦ ground arith
    | inr ((t, s1), e) ↦
        let (te, se) = next_ticket-shape key s s1 t e in
        elim (Option-cases (tickets_for keys s1)) [
          | inl f ↦ ground arith
          | inr ((rest, s2), f) ↦ (rest, ground arith, rw (← se) (f ∙ ground arith))
        ]
  ]

  pub tickets_for-Inv :
      (docs : List (Text × Text)) (s s' : VectorState V) (ts : List UpdateTicket)
      (m : Text → Option Text) (ps : List (UpdateTicket × Text))
      → Inv embed s m ps
      → tickets_for (map (λ d. d.0) docs) s ≡ some (ts, s')
      → Inv embed s' (currents docs m) ps × All (Owned s' (currents docs m)) (zip_texts ts docs)
  unfolding tickets_for
  tickets_for-Inv [] s s' [] m ps v h = let e : s ≡ s' = ground arith in rw (← e) (v, tt)
  tickets_for-Inv [] s s' (t ∷ ts) m ps v h = ground arith
  tickets_for-Inv ((k, x) ∷ docs) s s' ts m ps v h =
      let (rest, te, f) = tickets_for-cons k (map (λ d. d.0) docs) s s' ts h in
      let (w, zipped) =
        tickets_for-Inv docs (ticketed k s) s' rest (insert k x m) ((ticket_of k s, x) ∷ ps)
          (upsert-Inv k x s m ps v) f in
      rw te
        (record { bounded = w.bounded; owned = w.owned.1; fresh = w.fresh }, (w.owned.0, zipped))
