-- ===== src/Diff.antt =====
-- model.rs: `line_diff`, what changed between two bodies, line by line. The longest common
-- subsequence decides for bodies of up to 2000 lines, and the numbers of equal lines beyond.
pub mod Table
pub mod Subsequences
pub mod Counting
pub mod Balance
mod Tests
use kyb.Common.{
  ℕ, zero, suc, ◌+◌, ◌-◌, Bool, true, false, ◌||◌, List, [], ◌∷◌, ◌++◌, reverse, Text, ◌==◌, eqb,
  leb, ltb, max, length, if◌then◌else◌,
}
use kyb.Common.Int.{ℤ, pos, negsuc, ltb_ℤ}

-- `str::lines`: what ends in a line feed, less that and a carriage return before it, and the
-- last line if it is not empty. `cur` is the line so far, last character first.
abbrev without_cr : Text → Text
without_cr [] = []
without_cr (c ∷ rev) = if eqb c 13 then rev else c ∷ rev

unfoldable pub lines_from : Text → Text → List Text
lines_from [] [] = []
lines_from (c ∷ cur) [] = reverse (c ∷ cur) ∷ []
lines_from cur (c ∷ s) = elim (eqb c 10) [
  | true ↦ reverse (without_cr cur) ∷ lines_from [] s
  | false ↦ lines_from (c ∷ cur) s
]

unfoldable pub lines : Text → List Text
unfolding lines_from
lines s = lines_from [] s

pub record BodyDiff : Type 0 where
  pub added : List Text
  pub removed : List Text

abbrev pub lcs_max_lines : ℕ
lcs_max_lines = 2000

abbrev pub get_or {ℓ} : {A : Type ℓ} → List A → ℕ → A → A
get_or [] i d = d
get_or (x ∷ xs) zero d = x
get_or (x ∷ xs) (suc i) d = get_or xs i d

abbrev pub rest {ℓ} : {A : Type ℓ} → List A → List A
rest [] = []
rest (x ∷ xs) = xs

abbrev pub zeros : List Text → List ℕ
zeros [] = 0 ∷ []
zeros (b ∷ bs) = 0 ∷ zeros bs

-- The table by rows: row i for the lines of `a` from i on, with a cell for each end of `b`. A row
-- is filled from the right, from the row below it.
unfoldable pub fill_row : Text → List Text → List ℕ → List ℕ
fill_row x [] below = 0 ∷ []
fill_row x (y ∷ bs) below =
    let right = fill_row x bs (rest below) in
    (if x == y then suc (get_or below 1 0) else max (get_or below 0 0) (get_or right 0 0)) ∷ right

unfoldable pub fill_table : List Text → List Text → List (List ℕ)
unfolding fill_row
fill_table [] b = zeros b ∷ []
fill_table (x ∷ a) b = let below = fill_table a b in fill_row x b (get_or below 0 []) ∷ below

abbrev pub cell : List (List ℕ) → ℕ → ℕ
cell rows j = get_or (get_or rows 0 []) j 0

abbrev pub push_removed : Text → BodyDiff → BodyDiff
push_removed x d = record d { removed = x ∷ d.removed }

abbrev pub push_added : Text → BodyDiff → BodyDiff
push_added y d = record d { added = y ∷ d.added }

-- The loop over i and j, with the rows from i on and the lines from i and from j on.
unfoldable pub walk : List (List ℕ) → ℕ → List Text → List Text → BodyDiff
walk rows j [] ys = record { added = ys; removed = [] }
walk rows j (x ∷ xs) [] = record { added = []; removed = x ∷ xs }
walk rows j (x ∷ xs) (y ∷ ys) = elim (x == y) [
  | true ↦ walk (rest rows) (suc j) xs ys
  | false ↦ elim (leb (cell rows (suc j)) (cell (rest rows) j)) [
    | true ↦ push_removed x (walk (rest rows) j xs (y ∷ ys))
    | false ↦ push_added y (walk rows (suc j) (x ∷ xs) ys)
  ]
]

-- The `i64` counts of the fallback.
abbrev pub incr : ℤ → ℤ
incr (pos n) = pos (suc n)
incr (negsuc zero) = pos 0
incr (negsuc (suc n)) = negsuc n

abbrev pub decr : ℤ → ℤ
decr (pos zero) = negsuc 0
decr (pos (suc n)) = pos n
decr (negsuc n) = negsuc (suc n)

abbrev pub update : (ℤ → ℤ) → Text → (Text → ℤ) → Text → ℤ
update f l counts x = if l == x then f (counts x) else counts x

unfoldable pub tally : (ℤ → ℤ) → List Text → (Text → ℤ) → Text → ℤ
tally f [] counts = counts
tally f (l ∷ ls) counts = tally f ls (update f l counts)

-- One of the two loops that pick lines: those whose count is beyond zero, each bringing it nearer.
unfoldable pub pick : (ℤ → Bool) → (ℤ → ℤ) → List Text → (Text → ℤ) → List Text × (Text → ℤ)
pick test f [] counts = ([], counts)
pick test f (l ∷ ls) counts =
    let chosen = pick test f ls (update f l counts) in
    let passed = pick test f ls counts in
    if test (counts l) then (l ∷ chosen.0, chosen.1) else passed

unfoldable pub diff_counts : List Text → List Text → BodyDiff
diff_counts a b =
    let counts = tally decr b (tally incr a (λ l. pos 0)) in
    let (removed, left) = pick (ltb_ℤ (pos 0)) decr a counts in
    let (added, _) = pick (λ n. ltb_ℤ n (pos 0)) incr b left in
    record { added = added; removed = removed }

unfoldable pub diff_table : List Text → List Text → BodyDiff
diff_table a b = walk (fill_table a b) 0 a b

unfoldable pub line_diff : Text → Text → BodyDiff
line_diff from to =
    let a = lines from in
    let b = lines to in
    if ltb lcs_max_lines (length a) || ltb lcs_max_lines (length b)
    then diff_counts a b
    else diff_table a b
