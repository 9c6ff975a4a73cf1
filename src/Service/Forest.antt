-- ===== src/Service/Forest.antt =====
-- The tasks stay a forest.
use kyb.Common.{
  subst, ℕ, zero, suc, true, false, ◌≡◌, refl, ap, ◌∙◌, inl, inr, Option, none, some, List, [], ◌∷◌,
  Text, ◌==◌, eq_sound, eq_refl, is_empty, contains, if◌then◌else◌, ok, Bool-cases, Option-cases,
  arith,
}
use kyb.Entry.{Entry, is_task}
use kyb.Service.{View, stored_version}
use kyb.Service.Parents.{climb, validate_task_parent_chain}

-- The parent that a version names.
abbrev pub named_parent : Option Entry → Option Text
named_parent none = none
named_parent (some e) = if is_empty e.parent_task then none else some e.parent_task

abbrev pub parent_of : View → Text → Option Text
parent_of v k = named_parent (stored_version v k)

-- The chain of parents from a key ends.
pub data Ends (v : View) : Text → Type 0 where
  top : {k : Text} → parent_of v k ≡ none → Ends v k
  up : {k j : Text} → parent_of v k ≡ some j → Ends v j → Ends v k

-- The view in which one entry is the stored version of its key, and all else is as before.
abbrev pub Puts : Entry → View → View → Type 0
Puts e v v' = (k : Text) → stored_version v' k ≡ (if e.key == k then some e else stored_version v k)

not_other : (a b : Text) → a == b ≡ false → b == a ≡ false
not_other a b ne = elim (Bool-cases (b == a)) [
  | inl e ↦ let h = (rw (eq_sound b a e) at ne) in let i = eq_refl a in ground (arith, h, i)
  | inr f ↦ f
]

climb-Ends :
    (n : ℕ) (v v' : View) (e : Entry) (seen : List Text) (cursor : Text)
    → Puts e v v'
    → is_empty cursor ≡ false
    → climb n v e.key seen cursor ≡ some (ok tt)
    → Ends v' cursor
unfolding climb
climb-Ends zero v v' e seen cursor puts full h = ground (arith, h)
climb-Ends (suc n) v v' e seen [] puts full h = ground (arith, full)
climb-Ends (suc n) v v' e seen (x ∷ xs) puts full h =
    let cursor = x ∷ xs in
    elim (Bool-cases (cursor == e.key)) [
      | inl b ↦ let h' = (rw (climb, b) at h) in ground (arith, h')
      | inr b ↦ elim (Bool-cases (contains seen cursor)) [
        | inl c ↦ let h' = (rw (climb, b, c) at h) in ground (arith, h')
        | inr c ↦
            let as_before = puts cursor ∙ rw (not_other cursor e.key b) refl in
            elim (Option-cases (stored_version v cursor)) [
              | inl d ↦ top (ap named_parent (as_before ∙ d))
              | inr (parent, d) ↦
                  let names = ap named_parent (as_before ∙ d) in
                  elim (Bool-cases (is_empty parent.parent_task)) [
                    | inl f ↦ top (names ∙ rw f refl)
                    | inr f ↦ up (names ∙ rw f refl) (
                        climb-Ends n v v' e (cursor ∷ seen) parent.parent_task puts f
                          (rw (climb, b, c, d) at h))
                  ]
            ]
      ]
    ]

-- After a write that the check let through: a chain that ended still ends.
Ends-kept :
    (v v' : View) (e : Entry) (k : Text) → Puts e v v' → Ends v' e.key → Ends v k → Ends v' k
Ends-kept v v' e k puts own (top none_named) = elim (Bool-cases (e.key == k)) [
  | inl here ↦ subst (Ends v') (eq_sound e.key k here) own
  | inr other ↦ top (ap named_parent (puts k ∙ rw other refl) ∙ none_named)
]
Ends-kept v v' e k puts own (up {j = j} named later) = elim (Bool-cases (e.key == k)) [
  | inl here ↦ subst (Ends v') (eq_sound e.key k here) own
  | inr other ↦
      up (ap named_parent (puts k ∙ rw other refl) ∙ named) (Ends-kept v v' e j puts own later)
]

own-Ends :
    (rounds : ℕ) (v v' : View) (e : Entry)
    → is_task e ≡ true
    → validate_task_parent_chain rounds v e ≡ some (ok tt)
    → Puts e v v'
    → Ends v' e.key
unfolding validate_task_parent_chain
own-Ends rounds v v' e task h puts =
    let here : stored_version v' e.key ≡ some e = puts e.key ∙ rw (eq_refl e.key) refl in
    let named = ap named_parent here in
    elim (Bool-cases (is_empty e.parent_task)) [
      | inl a ↦ top (named ∙ rw a refl)
      | inr a ↦
          up (named ∙ rw a refl)
            (climb-Ends rounds v v' e [] e.parent_task puts a (rw (task, a) at h))
    ]

-- Where every chain of parents ends before a task is written and the check of its parents lets it
-- through, every chain of parents ends in the view in which the task is the stored version of its
-- key: tasks stay a forest.
pub validate_task_parent_chain-Ends :
    (rounds : ℕ) (v v' : View) (e : Entry)
    → is_task e ≡ true
    → ((k : Text) → Ends v k)
    → validate_task_parent_chain rounds v e ≡ some (ok tt)
    → ((k : Text) → stored_version v' k ≡ (if e.key == k then some e else stored_version v k))
    → (k : Text) → Ends v' k
validate_task_parent_chain-Ends rounds v v' e task ends h puts k =
    Ends-kept v v' e k puts (own-Ends rounds v v' e task h puts) (ends k)
