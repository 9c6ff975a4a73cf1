-- ===== src/Store/History.antt =====
-- store.rs: `HistoryIndex`, the versions of every key, which is extended by the commits since. The
-- history is the list of its commits, newest first, each with one parent and with what git's diff
-- says of its files; the map of the index is a function, in which a missing key has no versions.
use kyb.Common.{
  Bool, true, false, ◌&&◌, Option, none, some, List, [], ◌∷◌, ◌++◌, Text, ◌==◌, any, if◌then◌else◌,
}
use kyb.Common.Int.{ℤ}
use kyb.Auth.Attribution.{By, shown_author, from_message}
use kyb.Store.{key_of_path}

pub data Change : Type 0 where
  added modified deleted : Change

-- A file that the diff of a commit names; what is neither of these is skipped.
pub record FileDelta : Type 0 where
  pub path : Text
  pub change : Change

-- `summary` is the first paragraph of the message, as git gives it.
pub record CommitInfo : Type 0 where
  pub sha : Text
  pub time : ℤ
  pub message : Text
  pub summary : Text
  pub author_name : Text
  pub author_email : Text
  pub deltas : List FileDelta

-- The time is left as its seconds.
pub record VersionInfo : Type 0 where
  pub sha : Text
  pub committed_at : ℤ
  pub message : Text
  pub change : Change
  pub author : Text
  pub by : Option By

pub record HistoryIndex : Type 0 where
  pub head : Option Text
  pub by_key : Text → List VersionInfo

abbrev pub no_history : HistoryIndex
no_history = record { head = none; by_key = λ k. [] }

abbrev pub with_key : Option Text → Change → List (Text × Change) → List (Text × Change)
with_key none change later = later
with_key (some key) change later = (key, change) ∷ later

unfoldable pub changes_of : List FileDelta → List (Text × Change)
changes_of [] = []
changes_of (d ∷ ds) = with_key (key_of_path d.path) d.change (changes_of ds)

abbrev pub is_added : Change → Bool
is_added added = true
is_added modified = false
is_added deleted = false

abbrev pub is_deleted : Change → Bool
is_deleted added = false
is_deleted modified = false
is_deleted deleted = true

-- A key that is both added and deleted in one commit has moved between the layouts.
unfoldable pub moved : List (Text × Change) → Text → Bool
moved changes key =
    any (λ c. c.0 == key && is_added c.1) changes && any (λ c. c.0 == key && is_deleted c.1) changes

unfoldable pub version_info : CommitInfo → Change → VersionInfo
version_info c change = record {
  sha = c.sha;
  committed_at = c.time;
  message = c.summary;
  change = change;
  author = shown_author c.author_name c.author_email;
  by = from_message c.message;
}

abbrev pub push : Text → VersionInfo → (Text → List VersionInfo) → Text → List VersionInfo
push key v fresh k = if key == k then fresh k ++ (v ∷ []) else fresh k

unfoldable pub push_changes :
    CommitInfo
    → List (Text × Change)
    → List (Text × Change)
    → (Text → List VersionInfo)
    → Text
    → List VersionInfo
push_changes c changes [] fresh = fresh
push_changes c changes ((key, change) ∷ rest) fresh =
    let next = if moved changes key then fresh else push key (version_info c change) fresh in
    push_changes c changes rest next

-- The walk from the newest commit.
unfoldable pub walk : List CommitInfo → (Text → List VersionInfo) → Text → List VersionInfo
walk [] fresh = fresh
walk (c ∷ cs) fresh = walk cs (push_changes c (changes_of c.deltas) (changes_of c.deltas) fresh)

abbrev pub head_sha : List CommitInfo → Option Text
head_sha [] = none
head_sha (c ∷ cs) = some c.sha

-- `walk.hide(old)`: the commits that are not reachable from the old one.
unfoldable pub until : Text → List CommitInfo → List CommitInfo
until old [] = []
until old (c ∷ cs) = let rest = until old cs in if c.sha == old then [] else c ∷ rest

unfoldable pub in_history : Text → List CommitInfo → Bool
in_history old log = any (λ c. c.sha == old) log

-- The head of the previous index, if it is in this history.
abbrev pub base_of : Option Text → List CommitInfo → Option Text
base_of none log = none
base_of (some old) log = if in_history old log then some old else none

abbrev pub prev_head : Option HistoryIndex → Option Text
prev_head none = none
prev_head (some p) = p.head

abbrev pub prev_by_key : Option HistoryIndex → Text → List VersionInfo
prev_by_key none = λ k. []
prev_by_key (some p) = p.by_key

abbrev pub index_since :
    Option HistoryIndex → Option Text → CommitInfo → List CommitInfo → HistoryIndex
index_since prev none c cs = record { head = some c.sha; by_key = walk (c ∷ cs) (λ k. []) }
index_since prev (some old) c cs =
    if c.sha == old then record { head = prev_head prev; by_key = prev_by_key prev } else record {
      head = some c.sha;
      by_key = λ k. walk (until old (c ∷ cs)) (λ j. []) k ++ prev_by_key prev k;
    }

unfoldable pub history_index : Option HistoryIndex → List CommitInfo → HistoryIndex
history_index prev [] = no_history
history_index prev (c ∷ cs) = index_since prev (base_of (prev_head prev) (c ∷ cs)) c cs
