-- ===== src/Store/Walk.antt =====
-- store.rs: `walk_history_and_retractions`, every version of every key, oldest first, and the
-- retractions of knowledge. A commit is its time and what git's diff says of its files: a file that
-- is added or modified, with its text where it is UTF-8, or one that is deleted.
use kyb.Common.{
  ℕ, Bool, false, not, ◌||◌, Option, none, some, List, [], ◌∷◌, ◌++◌, length, Text, ◌==◌, is_empty,
  if◌then◌else◌, Result, ok, err,
}
use kyb.Common.Int.{ℤ}
use kyb.Entry.{Entry, kind_knowledge}
use kyb.Entry.Comparing.{same_content}
use kyb.Entry.Markdown.{Yaml, from_markdown}
use kyb.Store.{key_of_path, last_segment, strip_suffix, extension}

pub data TreeDelta : Type 0 where
  rewritten : Text → Option Text → TreeDelta
  removed : Text → TreeDelta

pub record TreeCommit : Type 0 where
  pub sha : Text
  pub time : ℤ
  pub deltas : List TreeDelta

pub record HistoryDoc : Type 0 where
  pub sha : Text
  pub committed_at : ℤ
  pub entry : Entry

pub record Retraction : Type 0 where
  pub key : Text
  pub committed_at : ℤ
  pub after : ℕ

pub record Walked : Type 0 where
  pub out : List HistoryDoc
  pub retractions : List Retraction
  pub last_content : Text → Option Entry

abbrev pub nothing_walked : Walked
nothing_walked = record { out = []; retractions = []; last_content = λ k. none }

abbrev pub put_last : Text → Option Entry → (Text → Option Entry) → Text → Option Entry
put_last key content last k = if key == k then content else last k

abbrev pub is_same_as : Option Entry → Entry → Bool
is_same_as none e = false
is_same_as (some last) e = same_content last e

-- A version with the content of the key's last one is skipped.
unfoldable pub push_version : TreeCommit → Entry → Walked → Walked
push_version c e w = if is_same_as (w.last_content e.key) e then w else record w {
  out = w.out ++ (record { sha = c.sha; committed_at = c.time; entry = e } ∷ []);
  last_content = put_last e.key (some e) w.last_content;
}

-- The stem of a file name with the extension `md`.
abbrev pub is_stem : Option Text → Bool
is_stem none = false
is_stem (some stem) = not (is_empty stem)

abbrev pub is_md : Text → Bool
is_md path = is_stem (strip_suffix extension (last_segment path))

module _ (yaml : Yaml) where
  abbrev pub of_result : {E A : Type 0} → Result E A → Option A
  of_result (ok a) = some a
  of_result (err e) = none

  -- The entry in a file that is added or modified; a file that cannot be read as one is skipped.
  abbrev pub entry_in : Text → Option Text → Option Entry
  entry_in path none = none
  entry_in path (some text) = if is_md path then of_result (from_markdown yaml text) else none

  abbrev pub cons_entry : Option Entry → List Entry → List Entry
  cons_entry none later = later
  cons_entry (some e) later = e ∷ later

  abbrev pub cons_key : Option Text → List Text → List Text
  cons_key none later = later
  cons_key (some k) later = k ∷ later

  -- What the deltas of a commit write, and the keys whose files they remove, in their order.
  unfoldable pub writes : List TreeDelta → List Entry
  writes [] = []
  writes (rewritten path text ∷ ds) = cons_entry (entry_in path text) (writes ds)
  writes (removed path ∷ ds) = writes ds

  unfoldable pub gone : List TreeDelta → List Text
  gone [] = []
  gone (rewritten path text ∷ ds) = gone ds
  gone (removed path ∷ ds) = cons_key (key_of_path path) (gone ds)

unfoldable pub push_versions : TreeCommit → List Entry → Walked → Walked
push_versions c [] w = w
push_versions c (e ∷ es) w = push_versions c es (push_version c e w)

unfoldable pub is_written : List Entry → Text → Bool
is_written [] key = false
is_written (e ∷ es) key = let later = is_written es key in e.key == key || later

-- A key that a commit removed is forgotten, and a retraction if it was knowledge.
unfoldable pub retract : TreeCommit → Text → Option Entry → Walked → Walked
retract c key none w = w
retract c key (some prev) w = record {
  out = w.out;
  retractions =
      if prev.kind == kind_knowledge
      then w.retractions ++ (record { key = key; committed_at = c.time; after = length w.out } ∷ [])
      else w.retractions;
  last_content = put_last key none w.last_content;
}

unfoldable pub retract_all : TreeCommit → List Entry → List Text → Walked → Walked
retract_all c written [] w = w
retract_all c written (key ∷ keys) w =
    let next = if is_written written key then w else retract c key (w.last_content key) w in
    retract_all c written keys next

module _ (yaml : Yaml) where
  unfoldable pub walk_commit : TreeCommit → Walked → Walked
  walk_commit c w =
      let written = writes yaml c.deltas in
      retract_all c written (gone yaml c.deltas) (push_versions c written w)

  -- The walk over commits, oldest first.
  unfoldable pub walk_from : List TreeCommit → Walked → Walked
  walk_from [] w = w
  walk_from (c ∷ cs) w = walk_from cs (walk_commit c w)

  unfoldable pub walk_history_and_retractions : List TreeCommit → List HistoryDoc × List Retraction
  walk_history_and_retractions commits =
      let w = walk_from commits nothing_walked in (w.out, w.retractions)
