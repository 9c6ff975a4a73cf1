-- ===== src/Keys.antt =====
-- model.rs: which existing keys are close to a new one.
pub mod Distance
pub mod Similar
mod Tests
use kyb.Common.{
  ℕ, suc, ◌+◌, ◌-◌, min, max, compare, Ordering, Bool, true, false, ◌&&◌, Option, none, some, List,
  [], ◌∷◌, map, Text, codes, ◌==◌, strip_prefix, length, take, eqb, leb, ltb, if◌then◌else◌,
  text_cmp,
}
use kyb.Common.Orders.{then_cmp}
use kyb.Common.Sorts.{sort_by}
use kyb.Diff.{get_or, rest}
use kyb.Entry.{task_prefix, incident_prefix}

-- A key without its prefix and with one '#' for each run of digits.
abbrev pub is_digit : ℕ → Bool
is_digit c = leb 48 c && leb c 57

unfoldable pub shape : Bool → Text → Text
shape in_digits [] = []
shape in_digits (c ∷ s) =
    let after_digit = shape true s in
    let after_other = shape false s in
    if is_digit c then (if in_digits then after_digit else 35 ∷ after_digit) else c ∷ after_other

abbrev pub without_prefix : Text → Text
without_prefix key = elim (strip_prefix task_prefix key) [
  | some s ↦ s
  | none ↦ elim (strip_prefix incident_prefix key) [ some s ↦ s | none ↦ key ]
]

unfoldable pub key_shape : Text → Text
key_shape key = shape false (without_prefix key)

-- The row before the first, from a number on.
unfoldable pub first_row : ℕ → Text → List ℕ
first_row n [] = n ∷ []
first_row n (y ∷ b) = n ∷ first_row (suc n) b

-- The loop over j: the cells of a row after its first, which is `left`.
unfoldable pub next_row : ℕ → Text → List ℕ → ℕ → List ℕ
next_row x [] prev left = []
next_row x (y ∷ b) prev left =
    let sub = get_or prev 0 0 + (if eqb x y then 0 else 1) in
    let here = min (min (suc (get_or prev 1 0)) (suc left)) sub in
    here ∷ next_row x b (rest prev) here

unfoldable pub least : ℕ → List ℕ → ℕ
least best [] = best
least best (n ∷ ns) = least (min best n) ns

-- The loop over i: the last row, or nothing once a whole row is beyond the cap.
unfoldable pub last_row : ℕ → ℕ → Text → Text → List ℕ → Option (List ℕ)
last_row cap i [] b prev = some prev
last_row cap i (x ∷ a) b prev =
    let cells = next_row x b prev (suc i) in
    let later = last_row cap (suc i) a b (suc i ∷ cells) in
    if ltb cap (least (suc i) cells) then none else later

abbrev pub within : ℕ → Text → Option (List ℕ) → Option ℕ
within cap b none = none
within cap b (some row) = let d = get_or row (length b) 0 in if leb d cap then some d else none

unfoldable pub edit_distance_within : Text → Text → ℕ → Option ℕ
edit_distance_within a b cap =
    let found = within cap b (last_row cap 0 a b (first_row 0 b)) in
    if ltb cap ((length a - length b) + (length b - length a)) then none else found

abbrev pub push_near : Option ℕ → Bool → Text → List (ℕ × Text) → List (ℕ × Text)
push_near none same other near = near
push_near (some d) true other near = near
push_near (some d) false other near = (d, other) ∷ near

-- The keys in reach; `cap_of` is the cap for a length, which is a product of floats.
unfoldable pub near_keys : (ℕ → ℕ) → Text → List Text → List (ℕ × Text)
near_keys cap_of fresh [] = []
near_keys cap_of fresh (other ∷ existing) =
    let near = near_keys cap_of fresh existing in
    let cap = cap_of (max (length fresh) (length other)) in
    if other == fresh
    then near
    else if eqb cap 0
    then near
    else push_near (edit_distance_within fresh other cap) (key_shape other == key_shape fresh) other
        near

abbrev pub near_order : ℕ × Text → ℕ × Text → Ordering
near_order a b = then_cmp (compare a.0 b.0) (text_cmp a.1 b.1)

unfoldable pub similar_keys : (ℕ → ℕ) → Text → List Text → List Text
similar_keys cap_of fresh existing =
    take 3 (map (λ p. p.1) (sort_by near_order (near_keys cap_of fresh existing)))
