-- ===== src/Diff/Table.antt =====
-- The table holds the lengths of longest common subsequences, and the loop keeps one.
use kyb.Common.{
  ℕ, zero, suc, true, false, ◌≡◌, refl, ap, sym, ◌∙◌, List, [], ◌∷◌, Text, ◌==◌, leb, max,
  if◌then◌else◌, arith,
}
use kyb.Diff.{
  get_or, rest, zeros, fill_row, fill_table, cell, walk, BodyDiff, push_removed, push_added,
}

-- The length of a longest common subsequence, by its recursion.
abbrev pub lcs : List Text → List Text → ℕ
lcs [] b = 0
lcs (x ∷ a) [] = 0
lcs (x ∷ a) (y ∷ b) =
    let both = lcs a b in
    let less_x = lcs a (y ∷ b) in
    let less_y = lcs (x ∷ a) b in if x == y then suc both else max less_x less_y

-- The end of a list from a position on.
abbrev drop : ℕ → List Text → List Text
drop zero b = b
drop (suc j) [] = []
drop (suc j) (y ∷ b) = drop j b

lcs-nil : (a : List Text) → lcs a [] ≡ 0
lcs-nil [] = refl
lcs-nil (x ∷ a) = refl

lcs-step :
    (x y : Text) (a b : List Text)
    → lcs (x ∷ a) (y ∷ b) ≡ (if x == y then suc (lcs a b) else max (lcs a (y ∷ b)) (lcs (x ∷ a) b))
lcs-step x y a b = refl

abbrev IsRow : List Text → List Text → List ℕ → Type 0
IsRow a b row = (j : ℕ) → get_or row j 0 ≡ lcs a (drop j b)

zeros-IsRow : (b : List Text) → IsRow [] b (zeros b)
zeros-IsRow [] zero = refl
zeros-IsRow [] (suc j) = refl
zeros-IsRow (y ∷ b) zero = refl
zeros-IsRow (y ∷ b) (suc j) = zeros-IsRow b j

get_or-rest : (row : List ℕ) (j : ℕ) → get_or (rest row) j 0 ≡ get_or row (suc j) 0
get_or-rest [] j = refl
get_or-rest (n ∷ row) j = refl

fill_row-IsRow :
    (x : Text) (a b : List Text) (below : List ℕ)
    → IsRow a b below
    → IsRow (x ∷ a) b (fill_row x b below)
unfolding fill_row
fill_row-IsRow x a [] below h zero = refl
fill_row-IsRow x a [] below h (suc j) = refl
fill_row-IsRow x a (y ∷ b) below h zero =
    let right = fill_row-IsRow x a b (rest below) (λ j. get_or-rest below j ∙ h (suc j)) 0 in
    rw (h 0, h 1, right)
fill_row-IsRow x a (y ∷ b) below h (suc j) =
    fill_row-IsRow x a b (rest below) (λ k. get_or-rest below k ∙ h (suc k)) j

fill_table-IsRow : (a b : List Text) → IsRow a b (get_or (fill_table a b) 0 [])
unfolding fill_table
fill_table-IsRow [] b = zeros-IsRow b
fill_table-IsRow (x ∷ a) b =
    fill_row-IsRow x a b (get_or (fill_table a b) 0 []) (fill_table-IsRow a b)

-- The cell of the table at row i and column j belongs to the ends of the two bodies from there on.
-- The loop that reads the table is the loop that asks for the lengths.
unfoldable pub walk_lcs : List Text → List Text → BodyDiff
walk_lcs [] ys = record { added = ys; removed = [] }
walk_lcs (x ∷ xs) [] = record { added = []; removed = x ∷ xs }
walk_lcs (x ∷ xs) (y ∷ ys) = elim (x == y) [
  | true ↦ walk_lcs xs ys
  | false ↦ elim (leb (lcs (x ∷ xs) ys) (lcs xs (y ∷ ys))) [
    | true ↦ push_removed x (walk_lcs xs (y ∷ ys))
    | false ↦ push_added y (walk_lcs (x ∷ xs) ys)
  ]
]

drop-suc : (j : ℕ) (b ys : List Text) (y : Text) → drop j b ≡ y ∷ ys → drop (suc j) b ≡ ys
drop-suc zero [] ys y e = ground arith
drop-suc zero (z ∷ b) ys y e = ground arith
drop-suc (suc j) [] ys y e = ground arith
drop-suc (suc j) (z ∷ b) ys y e = drop-suc j b ys y e

rest-fill_table : (x : Text) (xs b : List Text) → rest (fill_table (x ∷ xs) b) ≡ fill_table xs b
unfolding fill_table
rest-fill_table x xs b = refl

-- What the loop takes, given the two cells it compares and what it does after each step.
unfoldable chosen : Text → Text → ℕ → ℕ → BodyDiff → BodyDiff → BodyDiff → BodyDiff
chosen x y m n both less_x less_y = elim (x == y) [
  | true ↦ both
  | false ↦ elim (leb m n) [ true ↦ push_removed x less_x | false ↦ push_added y less_y ]
]

walk-chosen :
    (rows : List (List ℕ)) (j : ℕ) (x y : Text) (xs ys : List Text)
    → walk rows j (x ∷ xs) (y ∷ ys)
      ≡ chosen x y
          (cell rows (suc j))
          (cell (rest rows) j)
          (walk (rest rows) (suc j) xs ys)
          (walk (rest rows) j xs (y ∷ ys))
          (walk rows (suc j) (x ∷ xs) ys)
unfolding walk chosen
walk-chosen rows j x y xs ys = refl

walk_lcs-chosen :
    (x y : Text) (xs ys : List Text)
    → walk_lcs (x ∷ xs) (y ∷ ys)
      ≡ chosen x y
          (lcs (x ∷ xs) ys)
          (lcs xs (y ∷ ys))
          (walk_lcs xs ys)
          (walk_lcs xs (y ∷ ys))
          (walk_lcs (x ∷ xs) ys)
unfolding walk_lcs chosen
walk_lcs-chosen x y xs ys = refl

pub walk_lcs-equal :
    (x y : Text) (a b : List Text) → x == y ≡ true → walk_lcs (x ∷ a) (y ∷ b) ≡ walk_lcs a b
unfolding chosen
walk_lcs-equal x y a b e = walk_lcs-chosen x y a b ∙ rw (chosen, e) refl

pub walk_lcs-less_x :
    (x y : Text) (a b : List Text)
    → x == y ≡ false
    → leb (lcs (x ∷ a) b) (lcs a (y ∷ b)) ≡ true
    → walk_lcs (x ∷ a) (y ∷ b) ≡ push_removed x (walk_lcs a (y ∷ b))
unfolding chosen
walk_lcs-less_x x y a b e le = walk_lcs-chosen x y a b ∙ rw (chosen, e, le) refl

pub walk_lcs-less_y :
    (x y : Text) (a b : List Text)
    → x == y ≡ false
    → leb (lcs (x ∷ a) b) (lcs a (y ∷ b)) ≡ false
    → walk_lcs (x ∷ a) (y ∷ b) ≡ push_added y (walk_lcs (x ∷ a) b)
unfolding chosen
walk_lcs-less_y x y a b e gt = walk_lcs-chosen x y a b ∙ rw (chosen, e, gt) refl

pub walk-walk_lcs :
    (j : ℕ) (b xs ys : List Text) → drop j b ≡ ys → walk (fill_table xs b) j xs ys ≡ walk_lcs xs ys
unfolding walk walk_lcs
walk-walk_lcs j b [] ys e = refl
walk-walk_lcs j b (x ∷ xs) [] e = refl
walk-walk_lcs j b (x ∷ xs) (y ∷ ys) e =
    let e' = drop-suc j b ys y e in
    let here : cell (fill_table (x ∷ xs) b) (suc j) ≡ lcs (x ∷ xs) ys =
      fill_table-IsRow (x ∷ xs) b (suc j) ∙ ap (lcs (x ∷ xs)) e' in
    let below : cell (fill_table xs b) j ≡ lcs xs (y ∷ ys) =
      fill_table-IsRow xs b j ∙ ap (lcs xs) e in
    walk-chosen (fill_table (x ∷ xs) b) j x y xs ys
    ∙ rw
        (
          rest-fill_table x xs b,
          here,
          below,
          walk-walk_lcs (suc j) b xs ys e',
          walk-walk_lcs j b xs (y ∷ ys) e,
          walk-walk_lcs (suc j) b (x ∷ xs) ys e',
        )
        (sym (walk_lcs-chosen x y xs ys))
