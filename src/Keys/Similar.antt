-- ===== src/Keys/Similar.antt =====
-- Which keys `similar_keys` names.
use kyb.Common.{
  ℕ, suc, zero, ◌≤◌, max, true, false, ◌≡◌, ◌≢◌, inl, inr, refl, Option, none, some, List, [], ◌∷◌,
  map, Text, ◌==◌, eq_iff, eq_refl, contains, length, take, length-take, eqb, All, Bool-cases,
  arith,
}
use kyb.Common.Sorts.{sort_by, All-sort_by}
use kyb.Keys.{key_shape, push_near, near_keys, near_order, edit_distance_within, similar_keys}
use kyb.Keys.Distance.{lev, reverse_onto, edit_distance_within_lem}

-- A key of the base that is another than the new one, in reach of it, and not one of its series.
pub record IsNear (cap_of : ℕ → ℕ) (fresh : Text) (existing : List Text) (k : Text) : Type 0 where
  pub listed : contains existing k ≡ true
  pub other : k ≢ fresh
  pub in_reach :
      lev (reverse_onto fresh []) (reverse_onto k []) ≤ cap_of (max (length fresh) (length k))
  pub other_shape : key_shape k ≢ key_shape fresh

All-imp {ℓ} :
    {A : Type ℓ} {P Q : A → Type 0} → ((x : A) → P x → Q x) → (xs : List A) → All P xs → All Q xs
All-imp f [] h = tt
All-imp f (x ∷ xs) (h, hs) = (f x h, All-imp f xs hs)

All-take {ℓ} : {A : Type ℓ} (P : A → Type 0) (n : ℕ) (xs : List A) → All P xs → All P (take n xs)
All-take P zero xs h = tt
All-take P (suc n) [] h = tt
All-take P (suc n) (x ∷ xs) (h, hs) = (h, All-take P n xs hs)

All-map {ℓ κ} :
    {A : Type ℓ} {B : Type κ} (f : A → B) (P : B → Type 0) (xs : List A)
    → All (λ x. P (f x)) xs
    → All P (map f xs)
All-map f P [] h = tt
All-map f P (x ∷ xs) (h, hs) = (h, All-map f P xs hs)

module _ (cap_of : ℕ → ℕ) (fresh : Text) where
  more_listed :
      (o : Text) (existing : List Text) (k : Text)
      → IsNear cap_of fresh existing k
      → IsNear cap_of fresh (o ∷ existing) k
  more_listed o existing k n = record {
    listed = unfold contains in ground (arith, n.listed);
    other = n.other;
    in_reach = n.in_reach;
    other_shape = n.other_shape;
  }

  pushed :
      (o : Text) (existing : List Text) (d : Option ℕ) (near : List (ℕ × Text))
      → edit_distance_within fresh o (cap_of (max (length fresh) (length o))) ≡ d
      → o == fresh ≡ false
      → All (λ p. IsNear cap_of fresh (o ∷ existing) p.1) near
      → All
          (λ p. IsNear cap_of fresh (o ∷ existing) p.1)
          (push_near d (key_shape o == key_shape fresh) o near)
  pushed o existing none near e ne h = h
  pushed o existing (some d) near e ne h = elim (Bool-cases (key_shape o == key_shape fresh)) [
    | inl s ↦ rw s h
    | inr s ↦
        let reach = edit_distance_within_lem fresh o (cap_of (max (length fresh) (length o))) in
        rw s (
          record {
            listed = unfold contains in ground (arith, eq_refl o);
            other = λ same. ground (arith, eq_iff o fresh, ne, same);
            in_reach = ground (arith, reach, e);
            other_shape = λ same. ground (arith, eq_iff (key_shape o) (key_shape fresh), s, same);
          },
          h,
        )
  ]

  near_keys-IsNear :
      (existing : List Text)
      → All (λ p. IsNear cap_of fresh existing p.1) (near_keys cap_of fresh existing)
  unfolding near_keys
  near_keys-IsNear [] = tt
  near_keys-IsNear (o ∷ existing) =
      let before = All-imp (λ p. more_listed o existing p.1) _ (near_keys-IsNear existing) in
      elim (Bool-cases (o == fresh)) [
        | inl e ↦ rw e before
        | inr ne ↦ elim (Bool-cases (eqb (cap_of (max (length fresh) (length o))) 0)) [
          | inl z ↦ rw (ne, z) before
          | inr nz ↦ rw (ne, nz) (pushed o existing _ _ refl ne before)
        ]
      ]

  -- At most three keys are named, each of them an existing one other than the new key, within the cap
  -- for the longer of the two, and of another shape.
  pub similar_keys_lem :
      (existing : List Text)
      → All (IsNear cap_of fresh existing) (similar_keys cap_of fresh existing)
        × (length (similar_keys cap_of fresh existing) ≤ 3)
  unfolding similar_keys
  similar_keys_lem existing =
      let near = near_keys cap_of fresh existing in
      let P = IsNear cap_of fresh existing in
      (
        All-take P 3 _ (
            All-map (λ p. p.1) P _
              (All-sort_by near_order (λ p. P p.1) near (near_keys-IsNear existing))),
        (let bound = length-take 3 (map (λ p. p.1) (sort_by near_order near)) in omega arith),
      )
