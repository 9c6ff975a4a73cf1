-- ===== src/Service/Parents.antt =====
-- main.rs: `validate_task_parent_chain`, and that its loop ends.
use kyb.Common.{
  ℕ, zero, suc, ◌≤◌, ◌<◌, true, false, not, ◌||◌, ◌≡◌, ◌≢◌, refl, sym, ◌∙◌, inl, inr, Option, none,
  some, List, [], ◌∷◌, Text, ◌==◌, eq_sound, eq_refl, is_empty, contains, length, retain,
  length-retain-le, if◌then◌else◌, Result, ok, err, Bool-cases, Option-cases, arith,
}
use kyb.Entry.{Entry, is_task}
use kyb.Service.{View, stored_version}

pub data ChainError : Type 0 where
  makes_cycle in_cycle : ChainError

-- The `while` loop: `none` is a loop that needs more rounds than it was given.
unfoldable pub climb : ℕ → View → Text → List Text → Text → Option (Result ChainError (Unit {0}))
climb zero v key seen cursor = none
climb (suc n) v key seen cursor = elim (is_empty cursor) [
  | true ↦ some (ok tt)
  | false ↦ elim (cursor == key) [
    | true ↦ some (err makes_cycle)
    | false ↦ elim (contains seen cursor) [
      | true ↦ some (err in_cycle)
      | false ↦ elim (stored_version v cursor) [
        | none ↦ some (ok tt)
        | some parent ↦ climb n v key (cursor ∷ seen) parent.parent_task
      ]
    ]
  ]
]

unfoldable pub validate_task_parent_chain : ℕ → View → Entry → Option (Result ChainError (Unit {0}))
validate_task_parent_chain rounds v e =
    if not (is_task e) || is_empty e.parent_task
    then some (ok tt)
    else climb rounds v e.key [] e.parent_task

-- The keys that have not been seen.
abbrev pub unseen : List Text → List Text → List Text
unseen seen keys = retain (λ k. not (contains seen k)) keys

unseen-more :
    (c : Text) (seen keys : List Text) → length (unseen (c ∷ seen) keys) ≤ length (unseen seen keys)
unfolding contains
unseen-more c seen [] = omega arith
unseen-more c seen (k ∷ keys) = let later = unseen-more c seen keys in ground (arith, later)

unseen-less :
    (c : Text) (seen keys : List Text)
    → contains keys c ≡ true
    → contains seen c ≡ false
    → length (unseen (c ∷ seen) keys) < length (unseen seen keys)
unfolding contains
unseen-less c seen [] h n = ground arith
unseen-less c seen (k ∷ keys) h n =
    let later = unseen-less c seen keys in
    let more = unseen-more c seen keys in
    elim (Bool-cases (k == c)) [
      | inl e ↦
          let same = eq_sound k c e in
          let here : c == k ≡ true = rw same (eq_refl c) in
          let new : contains seen k ≡ false = rw same n in rw (here, new) (ground (arith, more))
      | inr ne ↦ let less = later (ground (arith, h, ne)) n in ground (arith, less)
    ]

-- Every key that a parent can be read of is among the keys.
abbrev pub Covers : View → List Text → Type 0
Covers v keys = (k : Text) → stored_version v k ≢ none → contains keys k ≡ true

some_not_none : {A : Type 0} (a : A) → some a ≢ none
some_not_none a h = ground arith

climb-ends :
    (n : ℕ) (v : View) (key : Text) (seen : List Text) (cursor : Text) (keys : List Text)
    → Covers v keys
    → length (unseen seen keys) < n
    → climb n v key seen cursor ≢ none
unfolding climb
climb-ends zero v key seen cursor keys cover h = absurd (omega arith)
climb-ends (suc n) v key seen [] keys cover h = some_not_none (ok tt)
climb-ends (suc n) v key seen (x ∷ xs) keys cover h =
    let cursor = x ∷ xs in
    elim (Bool-cases (cursor == key)) [
      | inl b ↦ rw (climb, b) (some_not_none (err makes_cycle))
      | inr b ↦ elim (Bool-cases (contains seen cursor)) [
        | inl c ↦ rw (climb, b, c) (some_not_none (err in_cycle))
        | inr c ↦ elim (Option-cases (stored_version v cursor)) [
          | inl d ↦ rw (climb, b, c, d) (some_not_none (ok tt))
          | inr (parent, d) ↦
              let known = cover cursor (λ z. some_not_none parent (sym d ∙ z)) in
              let less = unseen-less cursor seen keys known c in
              rw (climb, b, c, d)
                (climb-ends n v key (cursor ∷ seen) parent.parent_task keys cover (omega arith))
        ]
      ]
    ]

-- With a list of the keys that have a stored version, the loop over the parents of a task ends within
-- one round more than the list is long.
pub validate_task_parent_chain-ends :
    (v : View) (e : Entry) (keys : List Text)
    → ((k : Text) → stored_version v k ≢ none → contains keys k ≡ true)
    → (r : Result ChainError (Unit {0})) × (validate_task_parent_chain (suc (length keys)) v e
        ≡ some r)
unfolding validate_task_parent_chain
validate_task_parent_chain-ends v e keys cover =
    let rounds = suc (length keys) in
    let all_keys = length-retain-le (λ k. not (contains [] k)) keys in
    let ends = climb-ends rounds v e.key [] e.parent_task keys cover (omega arith) in
    elim (Bool-cases (not (is_task e) || is_empty e.parent_task)) [
      | inl a ↦ (ok tt, rw a refl)
      | inr a ↦ elim (Option-cases (climb rounds v e.key [] e.parent_task)) [
        | inl out ↦ absurd (ends out)
        | inr (r, found) ↦ (r, rw (a, found) refl)
      ]
    ]
