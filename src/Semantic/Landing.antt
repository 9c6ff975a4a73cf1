-- ===== src/Semantic/Landing.antt =====
-- Which landing vectors are taken: the latest ticket's, and no older one's.
use kyb.Common.{
  ℕ, suc, ◌≤◌, true, false, ◌≡◌, ◌≢◌, refl, Option, none, some, List, [], ◌∷◌, Text, ◌==◌, eq_refl,
  eq_iff, arith, if◌then◌else◌,
}
use kyb.Semantic.Tickets.{UpdateTicket, VectorState, next_ticket, put, install}

-- The vector that is stored for a key.
abbrev pub stored {ℓ} : {V : Type ℓ} → Text → List (Text × V) → Option V
stored key [] = none
stored key ((k, v) ∷ rest) = if k == key then some v else stored key rest

module _ {V : Type 0} where
  stored-put :
      (key j : Text) (v : V) (vs : List (Text × V))
      → stored j (put key v vs) ≡ (if key == j then some v else stored j vs)
  unfolding put
  stored-put key j v [] = refl
  stored-put key j v ((k, w) ∷ vs) =
      ground (arith, eq_iff k key, eq_iff k j, eq_iff key j, stored-put key j v vs)

  next_ticket-expects :
      (key : Text) (s s' : VectorState V) (ticket : UpdateTicket)
      → next_ticket key s ≡ some (ticket, s')
      → (ticket ≡ record { key = key; generation = suc s.next_generation })
        × (s'.expected key ≡ some (suc s.next_generation))
  unfolding next_ticket
  next_ticket-expects key s s' ticket h = ground (arith, eq_refl key)

  install_expected :
      (t : UpdateTicket) (v : V) (s : VectorState V)
      → s.expected t.key ≡ some t.generation
      → install t v s ≡ (true, record s { vectors = put t.key v s.vectors })
  unfolding install
  install_expected t v s e = ground arith

  install_unexpected :
      (t : UpdateTicket) (v : V) (s : VectorState V) (g : ℕ)
      → s.expected t.key ≡ some g
      → g ≢ t.generation
      → install t v s ≡ (false, s)
  unfolding install
  install_unexpected t v s g e ne = ground arith

  -- After a ticket is taken, its vector is installed and becomes the one that is stored for its
  -- key and no other, while a vector under any ticket that was given out before for the key is
  -- turned away and changes nothing.
  pub next_ticket-install :
      (key : Text) (s s' : VectorState V) (ticket : UpdateTicket) (v : V)
      → next_ticket key s ≡ some (ticket, s')
      → ((install ticket v s').0 ≡ true)
        × ((j : Text)
            → stored j (install ticket v s').1.vectors
              ≡ (if key == j then some v else stored j s'.vectors))
        × ((old : UpdateTicket) (w : V)
            → old.key ≡ key
            → old.generation ≤ s.next_generation
            → install old w s' ≡ (false, s'))
  next_ticket-install key s s' ticket v h =
      let (te, expects) = next_ticket-expects key s s' ticket h in
      rw te (
        let taken =
          install_expected (record { key = key; generation = suc s.next_generation }) v s'
            expects in
        (
          rw taken,
          λ j. rw taken (stored-put key j v s'.vectors),
          λ old w k g.
              install_unexpected old w s' (suc s.next_generation) (rw k expects) (λ e. omega arith),
        ))
