-- ===== src/Semantic/Tickets.antt =====
-- embed.rs: `VectorState`. A vector is of any type; a map is a function.
use kyb.Common.{
  ℕ, suc, Bool, true, false, not, Option, none, some, List, [], ◌∷◌, Text, ◌==◌, retain, eqb, ltb,
  if◌then◌else◌,
}

pub record UpdateTicket : Type 0 where
  pub key : Text
  pub generation : ℕ

pub record VectorState (V : Type 0) : Type 0 where
  pub next_generation : ℕ
  pub expected : Text → Option ℕ
  pub vectors : List (Text × V)

abbrev pub u64_max : ℕ
u64_max = 0xffff_ffff_ffff_ffff

-- `HashMap::insert`.
abbrev pub insert {ℓ} : {A : Type ℓ} → Text → A → (Text → Option A) → Text → Option A
insert k a m j = if j == k then some a else m j

abbrev pub is_expected : Option ℕ → ℕ → Bool
is_expected none g = false
is_expected (some e) g = eqb e g

module _ {V : Type 0} where
  unfoldable pub initial : VectorState V
  initial = record { next_generation = 0; expected = λ k. none; vectors = [] }

  -- `none` is the panic of a counter that is used up.
  unfoldable pub next_ticket : Text → VectorState V → Option (UpdateTicket × VectorState V)
  next_ticket key s =
      if ltb s.next_generation u64_max
      then some (
        record { key = key; generation = suc s.next_generation },
        record {
          next_generation = suc s.next_generation;
          expected = insert key (suc s.next_generation) s.expected;
          vectors = retain (λ kv. not (kv.0 == key)) s.vectors;
        },
      )
      else none

  -- The first slot of the key is overwritten, or a new one is pushed.
  unfoldable pub put : Text → V → List (Text × V) → List (Text × V)
  put key v [] = (key, v) ∷ []
  put key v ((k, w) ∷ rest) = if k == key then (k, v) ∷ rest else (k, w) ∷ put key v rest

  unfoldable pub install : UpdateTicket → V → VectorState V → Bool × VectorState V
  install ticket v s =
      if is_expected (s.expected ticket.key) ticket.generation
      then (true, record s { vectors = put ticket.key v s.vectors })
      else (false, s)

  unfoldable pub tickets_for :
      List Text → VectorState V → Option (List UpdateTicket × VectorState V)
  tickets_for [] s = some ([], s)
  tickets_for (key ∷ keys) s = elim (next_ticket key s) [
    | none ↦ none
    | some (t, s') ↦ elim (tickets_for keys s') [
      | none ↦ none
      | some (ts, s'') ↦ some (t ∷ ts, s'')
    ]
  ]

  unfoldable pub reset : List Text → VectorState V → Option (List UpdateTicket × VectorState V)
  reset keys s = tickets_for keys (record s { expected = λ k. none; vectors = [] })
