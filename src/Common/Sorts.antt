-- ===== src/Common/Sorts.antt =====
-- `sort_by` of Rust's slices: any stable sort by a lawful comparator gives this list.
use Prim.Native.Nat.{suc, Ordering}
use mathlib.Core.Path.{◌≡◌, refl, ◌∙◌}
use mathlib.Core.Logic.{◌≢◌, ◌⊎◌, inl, inr}
use mathlib.Core.Bool.{Bool}
use mathlib.Core.List.{List, [], ◌∷◌, Perm}
use mathlib.Core.List.Perm
use native.Mathlib.Omega.{arith}
use kyb.Common.Lists.{All, length, retain}
use kyb.Common.Orders.{then_cmp, IsOrder, le_trans, then-IsOrder}

module _ {ℓ} {A : Type ℓ} (cmp : A → A → Ordering) where
  unfoldable pub insert_by : A → List A → List A
  insert_by x [] = x ∷ []
  insert_by x (y ∷ ys) = elim (cmp x y) [ Ordering.gt ↦ y ∷ insert_by x ys | _ ↦ x ∷ y ∷ ys ]

  unfoldable pub sort_by : List A → List A
  unfolding insert_by
  sort_by [] = []
  sort_by (x ∷ xs) = insert_by x (sort_by xs)

  abbrev pub Le : A → A → Type 0
  Le x y = cmp x y ≢ Ordering.gt

  -- Each element is not greater than any later one.
  abbrev pub IsSorted : List A → Type 0
  IsSorted [] = Unit
  IsSorted (x ∷ xs) = All (Le x) xs × IsSorted xs

  gt-cases : (x y : A) → (cmp x y ≡ Ordering.gt) ⊎ Le x y
  gt-cases x y = go (cmp x y) refl
    where
      go : (o : Ordering) → cmp x y ≡ o → (cmp x y ≡ Ordering.gt) ⊎ Le x y
      go Ordering.gt e = inl e
      go Ordering.lt e = inr (ground arith)
      go Ordering.eq e = inr (ground arith)

  insert_by-front : (x y : A) (ys : List A) → Le x y → insert_by x (y ∷ ys) ≡ x ∷ y ∷ ys
  unfolding insert_by
  insert_by-front x y ys h = ground arith

  insert_by-back :
      (x y : A) (ys : List A) → cmp x y ≡ Ordering.gt → insert_by x (y ∷ ys) ≡ y ∷ insert_by x ys
  unfolding insert_by
  insert_by-back x y ys h = rw (h, insert_by)

  insert_by-perm : (x : A) (ys : List A) → Perm (insert_by x ys) (x ∷ ys)
  insert_by-perm x [] = unfold insert_by in Perm.refl (x ∷ [])
  insert_by-perm x (y ∷ ys) = elim (gt-cases x y) [
    | inl e ↦
        rw (insert_by-back x y ys e)
          (Perm.trans (Perm.cons y (insert_by-perm x ys)) (Perm.swap x y ys))
    | inr h ↦ rw (insert_by-front x y ys h) (Perm.refl (x ∷ y ∷ ys))
  ]

  pub sort_by-perm : (xs : List A) → Perm (sort_by xs) xs
  unfolding sort_by
  sort_by-perm [] = Perm.refl []
  sort_by-perm (x ∷ xs) = Perm.trans (insert_by-perm x (sort_by xs)) (Perm.cons x (sort_by-perm xs))

  pub All-insert_by {κ} :
      (P : A → Type κ) (x : A) (ys : List A) → P x → All P ys → All P (insert_by x ys)
  All-insert_by P x [] h hs = unfold insert_by in (h, tt)
  All-insert_by P x (y ∷ ys) h (k, ks) = elim (gt-cases x y) [
    | inl e ↦ rw (insert_by-back x y ys e) (k, All-insert_by P x ys h ks)
    | inr g ↦ rw (insert_by-front x y ys g) (h, (k, ks))
  ]

  pub All-sort_by {κ} : (P : A → Type κ) (xs : List A) → All P xs → All P (sort_by xs)
  unfolding sort_by
  All-sort_by P [] h = tt
  All-sort_by P (x ∷ xs) (h, hs) = All-insert_by P x (sort_by xs) h (All-sort_by P xs hs)

  pub length-insert_by : (x : A) (ys : List A) → length (insert_by x ys) ≡ suc (length ys)
  length-insert_by x [] = unfold insert_by in refl
  length-insert_by x (y ∷ ys) = elim (gt-cases x y) [
    | inl e ↦ rw (insert_by-back x y ys e, length-insert_by x ys)
    | inr h ↦ rw (insert_by-front x y ys h)
  ]

  pub length-sort_by : (xs : List A) → length (sort_by xs) ≡ length xs
  unfolding sort_by
  length-sort_by [] = refl
  length-sort_by (x ∷ xs) = rw (length-insert_by x (sort_by xs), length-sort_by xs)

  -- How many elements pass a test.
  count-insert_by :
      (test : A → Bool) (x : A) (ys : List A)
      → length (retain test (insert_by x ys)) ≡ length (retain test (x ∷ ys))
  count-insert_by test x [] = unfold insert_by in refl
  count-insert_by test x (y ∷ ys) = elim (gt-cases x y) [
    | inl e ↦ rw (insert_by-back x y ys e) (ground (arith, count-insert_by test x ys))
    | inr h ↦ rw (insert_by-front x y ys h)
  ]

  pub count-sort_by :
      (test : A → Bool) (xs : List A) → length (retain test (sort_by xs)) ≡ length (retain test xs)
  unfolding sort_by
  count-sort_by test [] = refl
  count-sort_by test (x ∷ xs) =
      count-insert_by test x (sort_by xs) ∙ ground (arith, count-sort_by test xs)

module _ {ℓ} {A : Type ℓ} (cmp : A → A → Ordering) (o : IsOrder cmp) where
  All-Le : (x y : A) (ys : List A) → Le cmp x y → All (Le cmp y) ys → All (Le cmp x) ys
  All-Le x y [] h k = tt
  All-Le x y (z ∷ ys) h (k, ks) = (le_trans o x y z h k, All-Le x y ys h ks)

  insert_by-IsSorted : (x : A) (ys : List A) → IsSorted cmp ys → IsSorted cmp (insert_by cmp x ys)
  insert_by-IsSorted x [] s = unfold insert_by in (tt, tt)
  insert_by-IsSorted x (y ∷ ys) (s, ss) = elim (gt-cases cmp x y) [
    | inl e ↦ rw (insert_by-back cmp x y ys e) (
      All-insert_by cmp (Le cmp y) x ys (ground (arith, o.swaps x y)) s,
      insert_by-IsSorted x ys ss,
    )
    | inr g ↦ rw (insert_by-front cmp x y ys g) ((g, All-Le x y ys g s), (s, ss))
  ]

  pub sort_by-IsSorted : (xs : List A) → IsSorted cmp (sort_by cmp xs)
  unfolding sort_by
  sort_by-IsSorted [] = tt
  sort_by-IsSorted (x ∷ xs) = insert_by-IsSorted x (sort_by cmp xs) (sort_by-IsSorted xs)

-- Sorting by `c` what is sorted by `d` sorts by `c`, and by `d` among the equals of `c`: the sort
-- is stable.
module _ {ℓ} {A : Type ℓ} (c d : A → A → Ordering) (o : IsOrder c) (p : IsOrder d) where
  abbrev both : A → A → Ordering
  both x y = then_cmp (c x y) (d x y)

  All-Le-step : (x y : A) (ys : List A) → Le both x y → All (Le both y) ys → All (Le both x) ys
  All-Le-step x y [] h k = tt
  All-Le-step x y (z ∷ ys) h (k, ks) =
      (le_trans (then-IsOrder c d o p) x y z h k, All-Le-step x y ys h ks)

  insert_by-stable :
      (x : A) (ys : List A) → All (Le d x) ys → IsSorted both ys → IsSorted both (insert_by c x ys)
  insert_by-stable x [] h s = unfold insert_by in (tt, tt)
  insert_by-stable x (y ∷ ys) (h, hs) (s, ss) = elim (gt-cases c x y) [
    | inl e ↦ rw (insert_by-back c x y ys e) (
      All-insert_by c (Le both y) x ys (ground (arith, o.swaps x y)) s,
      insert_by-stable x ys hs ss,
    )
    | inr g ↦
        let le : Le both x y = ground arith in
        rw (insert_by-front c x y ys g) ((le, All-Le-step x y ys le s), (s, ss))
  ]

  pub sort_by-stable : (xs : List A) → IsSorted d xs → IsSorted both (sort_by c xs)
  unfolding sort_by
  sort_by-stable [] s = tt
  sort_by-stable (x ∷ xs) (h, s) =
      insert_by-stable x (sort_by c xs) (All-sort_by c (Le d x) xs h) (sort_by-stable xs s)
