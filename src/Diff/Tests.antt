-- ===== src/Diff/Tests.antt =====
-- Runs of `line_diff`, and the theorems at concrete bodies.
use kyb.Common.{◌+◌, ◌-◌, ◌≤◌, ◌≡◌, refl, List, [], ◌∷◌, Text, ◌==◌, length}
use kyb.Diff.{
  lines, lines_from, line_diff, diff_counts, diff_table, walk, fill_table, fill_row, tally, pick,
}
use kyb.Diff.Subsequences.{Merge, keep, drop, empty, diff_table_lem}
use kyb.Diff.Counting.{count, diff_counts_lem}
use kyb.Diff.Balance.{line_diff_lem}

abbrev one : Text
one = 49 ∷ []

abbrev two : Text
two = 50 ∷ []

abbrev three : Text
three = 51 ∷ []

-- A carriage return before a line feed is not part of a line, and one at the very end is.
lines-crlf : lines (49 ∷ 13 ∷ 10 ∷ 10 ∷ 50 ∷ 13 ∷ []) ≡ one ∷ [] ∷ (50 ∷ 13 ∷ []) ∷ []
unfolding lines lines_from
lines-crlf = refl

-- A line that moves is removed in one place and added in the other by the table, and is no
-- difference for the counts.
moved_by_table :
    diff_table (one ∷ two ∷ three ∷ []) (two ∷ three ∷ one ∷ [])
    ≡ record { added = one ∷ []; removed = one ∷ [] }
unfolding diff_table walk fill_table fill_row ◌==◌
moved_by_table = refl

moved_by_counts :
    diff_counts (one ∷ two ∷ three ∷ []) (two ∷ three ∷ one ∷ [])
    ≡ record { added = []; removed = [] }
unfolding diff_counts tally pick ◌==◌
moved_by_counts = refl

diff_table_example :
    let d = diff_table (one ∷ two ∷ []) (two ∷ three ∷ []) in
    ((kept : List Text) × Merge kept (d.removed) (one ∷ two ∷ [])
      × Merge kept (d.added) (two ∷ three ∷ []))
    × (length (d.removed) ≤ 1)
    × (length (d.added) ≤ 1)
diff_table_example =
    diff_table_lem (one ∷ two ∷ []) (two ∷ three ∷ []) (drop (keep empty)) (keep (drop empty))

diff_counts_example :
    let d = diff_counts (one ∷ one ∷ two ∷ []) (one ∷ three ∷ []) in
    (count one (d.removed) ≡ count one (one ∷ one ∷ two ∷ []) - count one (one ∷ three ∷ []))
    × (count one (d.added) ≡ count one (one ∷ three ∷ []) - count one (one ∷ one ∷ two ∷ []))
diff_counts_example = diff_counts_lem (one ∷ one ∷ two ∷ []) (one ∷ three ∷ []) one

abbrev old_body : Text
old_body = 49 ∷ 10 ∷ 50 ∷ []

abbrev new_body : Text
new_body = 50 ∷ 10 ∷ 51 ∷ []

line_diff_example :
    let d = line_diff old_body new_body in
    count two (lines old_body) + count two (d.added)
    ≡ count two (d.removed) + count two (lines new_body)
line_diff_example = line_diff_lem old_body new_body two
