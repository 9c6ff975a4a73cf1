-- ===== src/Diff/Subsequences.antt =====
-- What the loop over the table returns against all the ways to pair the lines of two bodies.
use kyb.Common.{
  suc, ◌+◌, ◌≤◌, true, false, ◌≡◌, refl, ap, sym, ◌∙◌, inl, inr, List, [], ◌∷◌, Text, ◌==◌,
  eq_sound, eq_refl, leb, max, length, Bool-cases, arith, subst,
}
use kyb.Diff.{BodyDiff, push_removed, push_added, diff_table}
use kyb.Diff.Table.{lcs, walk_lcs, walk-walk_lcs, walk_lcs-equal, walk_lcs-less_x, walk_lcs-less_y}

-- `Merge kept dropped whole`: the whole body is the lines kept and the lines dropped, each in order.
pub data Merge : List Text → List Text → List Text → Type 0 where
  empty : Merge [] [] []
  keep : {x : Text} {ks ds ws : List Text} → Merge ks ds ws → Merge (x ∷ ks) ds (x ∷ ws)
  drop : {x : Text} {ks ds ws : List Text} → Merge ks ds ws → Merge ks (x ∷ ds) (x ∷ ws)

length-Merge : {ks ds ws : List Text} → Merge ks ds ws → length ks + length ds ≡ length ws
length-Merge empty = refl
length-Merge (keep m) = let rest = length-Merge m in ground arith
length-Merge (drop m) = let rest = length-Merge m in ground arith

pub all-dropped : (ws : List Text) → Merge [] ws ws
all-dropped [] = empty
all-dropped (x ∷ ws) = drop (all-dropped ws)

tail : {k : Text} {ks ds ws : List Text} → Merge (k ∷ ks) ds ws → (es : List Text) × Merge ks es ws
tail (keep {x} {ds = ds} m) = (x ∷ ds, drop m)
tail (drop {x} m) = let (es, n) = tail m in (x ∷ es, drop n)

lcs-equal : (x y : Text) (a b : List Text) → x == y ≡ true → lcs (x ∷ a) (y ∷ b) ≡ suc (lcs a b)
lcs-equal x y a b e = rw (e) refl

lcs-unequal :
    (x y : Text) (a b : List Text)
    → x == y ≡ false
    → lcs (x ∷ a) (y ∷ b) ≡ max (lcs a (y ∷ b)) (lcs (x ∷ a) b)
lcs-unequal x y a b e = rw (e) refl

longest :
    (a b : List Text) {ks ps qs : List Text} → Merge ks ps a → Merge ks qs b → length ks ≤ lcs a b
longest [] b empty n = ground arith
longest (x ∷ a) [] m empty = ground arith
longest (x ∷ a) (y ∷ b) (keep m) (keep n) =
    let least = longest a b m n in let step = lcs-equal x x a b (eq_refl x) in ground arith
longest (x ∷ a) (y ∷ b) (keep m) (drop n) = elim (Bool-cases (x == y)) [
  | inl e ↦ let least = longest a b m (tail n).1 in let step = lcs-equal x y a b e in ground arith
  | inr e ↦
      let least = longest (x ∷ a) b (keep m) n in let step = lcs-unequal x y a b e in ground arith
]
longest (x ∷ a) (y ∷ b) (drop m) (keep n) = elim (Bool-cases (x == y)) [
  | inl e ↦ let least = longest a b (tail m).1 n in let step = lcs-equal x y a b e in ground arith
  | inr e ↦
      let least = longest a (y ∷ b) m (keep n) in let step = lcs-unequal x y a b e in ground arith
]
longest (x ∷ a) (y ∷ b) (drop m) (drop n) = elim (Bool-cases (x == y)) [
  | inl e ↦ let least = longest a b m n in let step = lcs-equal x y a b e in ground arith
  | inr e ↦
      let least = longest a (y ∷ b) m (drop n) in let step = lcs-unequal x y a b e in ground arith
]

-- The lines kept, and that they are as many as a longest common subsequence has.
Kept : List Text → List Text → BodyDiff → Type 0
Kept a b d =
    (ks : List Text) × Merge ks (d.removed) a × Merge ks (d.added) b × (length ks ≡ lcs a b)

Kept-both :
    (x y : Text) (a b : List Text) (d : BodyDiff)
    → x == y ≡ true
    → Kept a b d
    → Kept (x ∷ a) (y ∷ b) d
unfolding Kept
Kept-both x y a b d e (ks, m, n, len) =
    let same = eq_sound x y e in
    (
      x ∷ ks,
      keep m,
      subst (λ z. Merge (x ∷ ks) (d.added) (z ∷ b)) same (keep n),
      ap suc len ∙ sym (lcs-equal x y a b e),
    )

Kept-less_x :
    (x y : Text) (a b : List Text) (d : BodyDiff)
    → x == y ≡ false
    → leb (lcs (x ∷ a) b) (lcs a (y ∷ b)) ≡ true
    → Kept a (y ∷ b) d
    → Kept (x ∷ a) (y ∷ b) (push_removed x d)
unfolding Kept
Kept-less_x x y a b d e le (ks, m, n, len) =
    let step = lcs-unequal x y a b e in (ks, drop m, n, ground arith)

Kept-less_y :
    (x y : Text) (a b : List Text) (d : BodyDiff)
    → x == y ≡ false
    → leb (lcs (x ∷ a) b) (lcs a (y ∷ b)) ≡ false
    → Kept (x ∷ a) b d
    → Kept (x ∷ a) (y ∷ b) (push_added y d)
unfolding Kept
Kept-less_y x y a b d e gt (ks, m, n, len) =
    let step = lcs-unequal x y a b e in (ks, m, drop n, ground arith)

walk_lcs-Kept : (a b : List Text) → Kept a b (walk_lcs a b)
unfolding walk_lcs Kept
walk_lcs-Kept [] b = ([], empty, all-dropped b, refl)
walk_lcs-Kept (x ∷ a) [] = ([], all-dropped (x ∷ a), empty, refl)
walk_lcs-Kept (x ∷ a) (y ∷ b) =
    let both = walk_lcs-Kept a b in
    let less_x = walk_lcs-Kept a (y ∷ b) in
    let less_y = walk_lcs-Kept (x ∷ a) b in
    elim (Bool-cases (x == y)) [
      | inl e ↦
          subst (Kept (x ∷ a) (y ∷ b)) (sym (walk_lcs-equal x y a b e))
            (Kept-both x y a b (walk_lcs a b) e both)
      | inr e ↦ elim (Bool-cases (leb (lcs (x ∷ a) b) (lcs a (y ∷ b)))) [
        | inl le ↦
            subst (Kept (x ∷ a) (y ∷ b)) (sym (walk_lcs-less_x x y a b e le))
              (Kept-less_x x y a b (walk_lcs a (y ∷ b)) e le less_x)
        | inr gt ↦
            subst (Kept (x ∷ a) (y ∷ b)) (sym (walk_lcs-less_y x y a b e gt))
              (Kept-less_y x y a b (walk_lcs (x ∷ a) b) e gt less_y)
      ]
    ]

-- The lines that `diff_table` leaves in both bodies are the same, in the same order; and however
-- else two bodies are read as common lines and dropped ones, no fewer lines of either are dropped
-- than `diff_table` reports as removed and as added.
pub diff_table_lem :
    (a b : List Text) {ks ps qs : List Text}
    → Merge ks ps a
    → Merge ks qs b
    → let d = diff_table a b in
      ((kept : List Text) × Merge kept (d.removed) a × Merge kept (d.added) b)
      × (length (d.removed) ≤ length ps)
      × (length (d.added) ≤ length qs)
unfolding diff_table Kept
diff_table_lem a b m n =
    let same = walk-walk_lcs 0 b a b refl in
    let (kept, from_a, from_b, len) : Kept a b (diff_table a b) =
      subst (Kept a b) (sym same) (walk_lcs-Kept a b) in
    let least = longest a b m n in
    let in_a = length-Merge from_a in
    let in_b = length-Merge from_b in
    let other_a = length-Merge m in
    let other_b = length-Merge n in ((kept, from_a, from_b), omega arith, omega arith)
