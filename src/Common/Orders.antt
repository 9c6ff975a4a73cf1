-- ===== src/Common/Orders.antt =====
-- Comparators into `Ordering`, as Rust's `cmp` and `then` build them, and what makes one lawful.
use Prim.Native.Nat.{compare, Ordering}
use mathlib.Core.Path.{◌≡◌, refl, sym, ap, ◌∙◌}
use mathlib.Core.Logic.{◌≢◌}
use mathlib.Core.Bool.{Bool, true, false}
use mathlib.Core.List.{[], ◌∷◌}
use native.Mathlib.Omega.{arith}
use kyb.Common.Texts.{Text, text_cmp}
use kyb.Common.Int.{cmp_ℤ}

abbrev pub swap : Ordering → Ordering
swap Ordering.lt = Ordering.gt
swap Ordering.eq = Ordering.eq
swap Ordering.gt = Ordering.lt

-- `Ordering::then`.
abbrev pub then_cmp : Ordering → Ordering → Ordering
then_cmp Ordering.eq o = o
then_cmp Ordering.lt o = Ordering.lt
then_cmp Ordering.gt o = Ordering.gt

-- `false < true`.
abbrev pub bool_cmp : Bool → Bool → Ordering
bool_cmp false true = Ordering.lt
bool_cmp true false = Ordering.gt
bool_cmp _ _ = Ordering.eq

pub record IsOrder {ℓ} {A : Type ℓ} (cmp : A → A → Ordering) : Type ℓ where
  pub swaps : (x y : A) → cmp y x ≡ swap (cmp x y)
  pub lt_trans : (x y z : A) → cmp x y ≡ Ordering.lt → cmp y z ≡ Ordering.lt → cmp x z ≡ Ordering.lt
  pub eq_left : (x y z : A) → cmp x y ≡ Ordering.eq → cmp x z ≡ cmp y z

module _ {ℓ} {A : Type ℓ} {cmp : A → A → Ordering} (o : IsOrder cmp) where
  pub eq_right : (x y z : A) → cmp y z ≡ Ordering.eq → cmp x y ≡ cmp x z
  eq_right x y z e = o.swaps y x ∙ ap swap (o.eq_left y z x e) ∙ sym (o.swaps z x)

  -- A comparator in the other direction.
  pub reversed-IsOrder : IsOrder (λ x y. cmp y x)
  reversed-IsOrder = record {
    swaps = λ x y. o.swaps y x;
    lt_trans = λ x y z h k. o.lt_trans z y x k h;
    eq_left = λ x y z e. sym (eq_right z y x e);
  }

  pub on-IsOrder {κ} : {B : Type κ} (f : B → A) → IsOrder (λ x y. cmp (f x) (f y))
  on-IsOrder f = record {
    swaps = λ x y. o.swaps (f x) (f y);
    lt_trans = λ x y z. o.lt_trans (f x) (f y) (f z);
    eq_left = λ x y z. o.eq_left (f x) (f y) (f z);
  }

  -- Not greater, and its transitivity.
  pub le_trans : (x y z : A) → cmp x y ≢ Ordering.gt → cmp y z ≢ Ordering.gt → cmp x z ≢ Ordering.gt
  le_trans x y z h k = ground (arith, o.lt_trans x y z, o.eq_left x y z, eq_right x y z)

pub then-IsOrder {ℓ} :
    {A : Type ℓ} (c d : A → A → Ordering)
    → IsOrder c
    → IsOrder d
    → IsOrder (λ x y. then_cmp (c x y) (d x y))
then-IsOrder c d o p = record {
  swaps = λ x y. ground (arith, o.swaps x y, p.swaps x y);
  lt_trans = λ x y z h k.
      ground (arith, o.lt_trans x y z, p.lt_trans x y z, o.eq_left x y z, eq_right o x y z);
  eq_left = λ x y z h. ground (arith, o.eq_left x y z, p.eq_left x y z);
}

pub compare-IsOrder : IsOrder compare
compare-IsOrder = record {
  swaps = λ x y. ground arith;
  lt_trans = λ x y z h k. ground arith;
  eq_left = λ x y z h. ground arith;
}

pub bool_cmp-IsOrder : IsOrder bool_cmp
bool_cmp-IsOrder = record {
  swaps = λ x y. ground arith;
  lt_trans = λ x y z h k. ground arith;
  eq_left = λ x y z h. ground arith;
}

pub cmp_ℤ-IsOrder : IsOrder cmp_ℤ
cmp_ℤ-IsOrder = record {
  swaps = λ x y. ground arith;
  lt_trans = λ x y z h k. ground arith;
  eq_left = λ x y z h. ground arith;
}

text_cmp-swaps : (s t : Text) → text_cmp t s ≡ swap (text_cmp s t)
unfolding text_cmp
text_cmp-swaps [] [] = refl
text_cmp-swaps [] (d ∷ t) = refl
text_cmp-swaps (c ∷ s) [] = refl
text_cmp-swaps (c ∷ s) (d ∷ t) = ground (arith, text_cmp-swaps s t)

text_cmp-lt_trans :
    (s t u : Text)
    → text_cmp s t ≡ Ordering.lt
    → text_cmp t u ≡ Ordering.lt
    → text_cmp s u ≡ Ordering.lt
unfolding text_cmp
text_cmp-lt_trans [] [] u h k = ground arith
text_cmp-lt_trans [] (d ∷ t) [] h k = ground arith
text_cmp-lt_trans [] (d ∷ t) (e ∷ u) h k = refl
text_cmp-lt_trans (c ∷ s) [] u h k = ground arith
text_cmp-lt_trans (c ∷ s) (d ∷ t) [] h k = ground arith
text_cmp-lt_trans (c ∷ s) (d ∷ t) (e ∷ u) h k = ground (arith, text_cmp-lt_trans s t u)

-- Texts compare equal only if they are equal.
pub text_cmp-eq : (s t : Text) → text_cmp s t ≡ Ordering.eq → s ≡ t
unfolding text_cmp
text_cmp-eq [] [] h = refl
text_cmp-eq [] (d ∷ t) h = ground arith
text_cmp-eq (c ∷ s) [] h = ground arith
text_cmp-eq (c ∷ s) (d ∷ t) h = ground (arith, text_cmp-eq s t)

pub text_cmp-IsOrder : IsOrder text_cmp
text_cmp-IsOrder = record {
  swaps = text_cmp-swaps;
  lt_trans = text_cmp-lt_trans;
  eq_left = λ x y z h. rw (text_cmp-eq x y h);
}
