-- ===== src/Diff/Balance.antt =====
-- `line_diff` whichever of its two ways a comparison takes.
use kyb.Common.{◌+◌, ◌≡◌, inl, inr, List, Text, ◌==◌, ltb, ◌||◌, length, Bool-cases, arith}
use kyb.Diff.{lines, lcs_max_lines, BodyDiff, line_diff, diff_counts, diff_table}
use kyb.Diff.Subsequences.{Merge, all-dropped, diff_table_lem}
use kyb.Diff.Counting.{count, count-same, count-other, diff_counts_lem}

-- A line that is kept or dropped is counted once.
count-Merge :
    (x : Text) {ks ds ws : List Text} → Merge ks ds ws → count x ks + count x ds ≡ count x ws
count-Merge x Merge.empty = ground arith
count-Merge x (Merge.keep {x = l} {ks = ks} {ws = ws} m) =
    let more = count-Merge x m in
    elim (Bool-cases (l == x)) [
      | inl e ↦ let left = count-same x l ks e in let right = count-same x l ws e in ground arith
      | inr e ↦ let left = count-other x l ks e in let right = count-other x l ws e in ground arith
    ]
count-Merge x (Merge.drop {x = l} {ds = ds} {ws = ws} m) =
    let more = count-Merge x m in
    elim (Bool-cases (l == x)) [
      | inl e ↦ let left = count-same x l ds e in let right = count-same x l ws e in ground arith
      | inr e ↦ let left = count-other x l ds e in let right = count-other x l ws e in ground arith
    ]

-- What stands in the first body and is added, counted with what is removed and stands in the second.
abbrev Balanced : List Text → List Text → Text → BodyDiff → Type 0
Balanced a b x d = count x a + count x (d.added) ≡ count x (d.removed) + count x b

diff_table-Balanced : (a b : List Text) (x : Text) → Balanced a b x (diff_table a b)
diff_table-Balanced a b x =
    let ((kept, m, n), _, _) = diff_table_lem a b (all-dropped a) (all-dropped b) in
    let in_a = count-Merge x m in let in_b = count-Merge x n in omega arith

diff_counts-Balanced : (a b : List Text) (x : Text) → Balanced a b x (diff_counts a b)
diff_counts-Balanced a b x = let (removed, added) = diff_counts_lem a b x in omega arith

-- Whether two bodies are short enough for the table or not: a line occurs in the new body as often
-- as in the old one, less what is reported as removed and with what is reported as added.
pub line_diff_lem :
    (from to x : Text)
    → let d = line_diff from to in
      count x (lines from) + count x (d.added) ≡ count x (d.removed) + count x (lines to)
unfolding line_diff
line_diff_lem from to x =
    let a = lines from in
    let b = lines to in
    elim (Bool-cases (ltb lcs_max_lines (length a) || ltb lcs_max_lines (length b))) [
      | inl e ↦ rw (e) (diff_counts-Balanced a b x)
      | inr e ↦ rw (e) (diff_table-Balanced a b x)
    ]
