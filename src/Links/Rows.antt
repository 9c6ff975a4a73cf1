-- ===== src/Links/Rows.antt =====
-- The order in which related entries are listed.
use kyb.Common.{List, compare, text_cmp, none, true, false, ◌≡◌, ◌≤◌, suc, arith}
use mathlib.Core.List.{Perm}
use kyb.Common.Orders.{
  IsOrder, then-IsOrder, on-IsOrder, reversed-IsOrder, compare-IsOrder, text_cmp-IsOrder,
}
use kyb.Common.Sorts.{IsSorted, sort_by-perm, sort_by-IsSorted}
use kyb.Links.{Edge, LinkIndex, Brief, live, rank, rank_of, when_of, row_order, rows}

row_order-IsOrder : (ix : LinkIndex) → IsOrder (row_order ix)
unfolding row_order
row_order-IsOrder ix =
    then-IsOrder _ (λ a b. text_cmp a.0 b.0)
      (then-IsOrder (λ a b. compare (rank_of (ix.briefs a.0)) (rank_of (ix.briefs b.0)))
        (λ a b. text_cmp (when_of (ix.briefs b.0)) (when_of (ix.briefs a.0)))
        (on-IsOrder compare-IsOrder (λ (e : Edge). rank_of (ix.briefs e.0)))
        (reversed-IsOrder (on-IsOrder text_cmp-IsOrder (λ (e : Edge). when_of (ix.briefs e.0)))))
      (on-IsOrder text_cmp-IsOrder (λ (e : Edge). e.0))

live-first : (b c : Brief) → live b ≡ true → live c ≡ false → suc (rank b) ≤ rank c
unfolding rank
live-first b c h k = ground (arith, h, k)

-- The rows of related entries are the edges themselves, in an order in which what is live comes
-- before what is not, and what is not known last.
pub rows_lem :
    (ix : LinkIndex) (edges : List Edge) (b c : Brief)
    → Perm (rows ix edges) edges
      × IsSorted (row_order ix) (rows ix edges)
      × (live b ≡ true → live c ≡ false → suc (rank b) ≤ rank c)
      × (suc (rank c) ≤ rank_of none)
unfolding rows
rows_lem ix edges b c = (
  sort_by-perm (row_order ix) edges,
  sort_by-IsSorted (row_order ix) (row_order-IsOrder ix) edges,
  live-first b c,
  (unfold rank in ground arith),
)
