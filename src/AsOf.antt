-- ===== src/AsOf.antt =====
-- index.rs: what a search as of an instant answers from. The documents of the history are numbered
-- in the order of the walk, a retraction counts as often as there are documents before it, and the
-- current version of a key is decided by those numbers.
pub mod Numbers
pub mod Snapshot
pub mod Following
pub mod Commits
pub mod Instants
mod Tests
use kyb.Common.{
  ℕ, suc, Bool, true, false, not, ◌&&◌, Option, none, some, List, [], ◌∷◌, Text, ◌==◌, any, ltb,
  leb, if◌then◌else◌,
}
use kyb.Common.Int.{ℤ, leb_ℤ}
use kyb.Store.Walk.{HistoryDoc, Retraction}

-- `reindex`: the number of a document is its place in the walk, from one.
unfoldable pub number : ℕ → List HistoryDoc → List (ℕ × HistoryDoc)
number n [] = []
number n (d ∷ ds) = (suc n, d) ∷ number (suc n) ds

abbrev pub in_window : Option (ℤ × ℤ) → ℤ → Bool
in_window none t = true
in_window (some (lo, hi)) t = leb_ℤ lo t && leb_ℤ t hi

abbrev pub is_candidate : Text → ℤ → Option (ℤ × ℤ) → HistoryDoc → Bool
is_candidate key at window d =
    d.entry.key == key && (leb_ℤ d.committed_at at && in_window window d.committed_at)

abbrev pub newer_of : ℕ × HistoryDoc → Option (ℕ × HistoryDoc) → Option (ℕ × HistoryDoc)
newer_of x none = some x
newer_of x (some y) = if ltb y.0 x.0 then some x else some y

-- The document with the highest number; the code keeps the number alone.
unfoldable pub newest :
    Text
    → ℤ
    → Option (ℤ × ℤ)
    → List (ℕ × HistoryDoc)
    → Option (ℕ × HistoryDoc)
    → Option (ℕ × HistoryDoc)
newest key at window [] best = best
newest key at window ((seq, d) ∷ ds) best =
    newest key at window ds (if is_candidate key at window d then newer_of (seq, d) best else best)

-- A key whose newest document a retraction outranks has no current version.
unfoldable pub is_outranked : Text → ℤ → List Retraction → ℕ → Bool
is_outranked key at tombstones seq =
    any (λ r. r.key == key && (leb_ℤ r.committed_at at && leb seq r.after)) tombstones

abbrev pub unless_outranked :
    Text → ℤ → List Retraction → Option (ℕ × HistoryDoc) → Option (ℕ × HistoryDoc)
unless_outranked key at tombstones none = none
unless_outranked key at tombstones (some x) =
    if is_outranked key at tombstones x.0 then none else some x

unfoldable pub current_version_per_key :
    ℤ → Option (ℤ × ℤ) → List (ℕ × HistoryDoc) → List Retraction → Text → Option (ℕ × HistoryDoc)
current_version_per_key at window docs tombstones key =
    unless_outranked key at tombstones (newest key at window docs none)
