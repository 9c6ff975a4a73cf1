-- ===== src/Semantic/Steps.antt =====
-- Writes, deletions and rebuilds take tickets, and the vectors for them arrive later, in any order,
-- any number of times or never: the steps, and what holds between them.
use kyb.Common.{
  ℕ, ◌≤◌, ◌≡◌, ◌⊎◌, Option, none, some, List, [], ◌∷◌, ◌++◌, map, Text, ◌==◌, All, if◌then◌else◌,
}
use kyb.Semantic.Tickets.{UpdateTicket, VectorState, initial, insert, next_ticket, install, reset}

-- The service with what it was told: the text that is current for each key, and every ticket
-- that was given out, with the text that is being embedded under it.
pub record World (V : Type 0) : Type 0 where
  pub state : VectorState V
  pub current : Text → Option Text
  pub pending : List (UpdateTicket × Text)

abbrev pub forget : Text → (Text → Option Text) → Text → Option Text
forget k m j = if j == k then none else m j

abbrev pub currents : List (Text × Text) → (Text → Option Text) → Text → Option Text
currents [] m = m
currents ((k, t) ∷ docs) m = currents docs (insert k t m)

abbrev pub zip_texts : List UpdateTicket → List (Text × Text) → List (UpdateTicket × Text)
zip_texts (t ∷ ts) ((k, x) ∷ docs) = (t, x) ∷ zip_texts ts docs
zip_texts _ _ = []

abbrev pub Listed : UpdateTicket × Text → List (UpdateTicket × Text) → Type 0
Listed p [] = ⊥
Listed p (q ∷ qs) = (p ≡ q) ⊎ Listed p qs

-- A ticket that was given out is no younger than the counter, and if its key still expects it,
-- then the text under it is the current one.
abbrev pub Owned :
    {V : Type 0} → VectorState V → (Text → Option Text) → UpdateTicket × Text → Type 0
Owned s m p =
    (p.0.generation ≤ s.next_generation)
    × (s.expected p.0.key ≡ some p.0.generation → m p.0.key ≡ some p.1)

abbrev pub Bounded : {V : Type 0} → VectorState V → Type 0
Bounded s = (k : Text) (g : ℕ) → s.expected k ≡ some g → g ≤ s.next_generation

module _ {V : Type 0} (embed : Text → V) where
  -- `begin_upsert`, `invalidate`, `begin_rebuild`, and one `install` of `finish_upsert` or
  -- `finish_rebuild`.
  pub data Step (w : World V) : World V → Type 0 where
    begin_upsert :
        (key text : Text) (ticket : UpdateTicket) (s : VectorState V)
        → next_ticket key w.state ≡ some (ticket, s)
        → Step w (record {
          state = s;
          current = insert key text w.current;
          pending = (ticket, text) ∷ w.pending;
        })
    invalidate :
        (key : Text) (ticket : UpdateTicket) (s : VectorState V)
        → next_ticket key w.state ≡ some (ticket, s)
        → Step w (record w { state = s; current = forget key w.current })
    begin_rebuild :
        (docs : List (Text × Text)) (tickets : List UpdateTicket) (s : VectorState V)
        → reset (map (λ d. d.0) docs) w.state ≡ some (tickets, s)
        → Step w (record {
          state = s;
          current = currents docs (λ k. none);
          pending = zip_texts tickets docs ++ w.pending;
        })
    land :
        (ticket : UpdateTicket) (text : Text)
        → Listed (ticket, text) w.pending
        → Step w (record w { state = (install ticket (embed text) w.state).1 })

  pub data Reach : World V → Type 0 where
    start : Reach (record { state = initial; current = λ k. none; pending = [] })
    next : {w u : World V} → Reach w → Step w u → Reach u

  -- A stored vector is that of the text that is current for its key.
  abbrev pub IsFresh : (Text → Option Text) → Text × V → Type 0
  IsFresh m kv = (x : Text) × (m kv.0 ≡ some x) × (kv.1 ≡ embed x)

  pub record Inv (s : VectorState V) (m : Text → Option Text) (pending : List (UpdateTicket × Text))
      : Type 0 where
    pub bounded : Bounded s
    pub owned : All (Owned s m) pending
    pub fresh : All (IsFresh m) s.vectors
