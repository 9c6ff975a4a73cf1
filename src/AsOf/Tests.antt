-- ===== src/AsOf/Tests.antt =====
-- A note that is written and retracted, and what is current at an instant between.
use kyb.Common.{
  ℕ, true, false, ◌≡◌, ◌⊎◌, refl, none, some, [], ◌∷◌, codes, ◌==◌, contains, trim_end,
  is_whitespace, strip_prefix, starts_with,
}
use kyb.Common.Int.{pos}
use kyb.Entry.{Entry, kind_knowledge}
use kyb.Entry.Comparing.{same_content}
use kyb.Entry.Markdown.{to_markdown, from_markdown, find_fence, skip_newlines}
use kyb.Store.{last_segment, strip_suffix, key_of_path, file_rel, legacy_rel, dir_for_key}
use kyb.Store.Memory.{note, dated, one_yaml}
use kyb.Store.Walk.{
  HistoryDoc, TreeCommit, rewritten, removed, writes, gone, is_written, push_versions, push_version,
  retract_all, retract, walk_from, walk_commit, walk_history_and_retractions,
}
use kyb.AsOf.{number, newest, is_outranked, current_version_per_key}
use kyb.AsOf.Commits.{tree_after, commit_key, put_all}
use kyb.AsOf.Instants.{snapshot, snapshot_lem}

abbrev written : TreeCommit
written = record {
  sha = codes "c0";
  time = pos 1;
  deltas = rewritten (codes "knowledge/a.md") (some (to_markdown one_yaml dated)) ∷ [];
}

abbrev retracted : TreeCommit
retracted = record {
  sha = codes "c1";
  time = pos 2;
  deltas = removed (codes "knowledge/a.md") ∷ [];
}

note-live : tree_after one_yaml note.key (written ∷ []) none ≡ some dated
unfolding tree_after commit_key put_all writes gone is_written contains from_markdown to_markdown
    find_fence strip_prefix skip_newlines trim_end is_whitespace last_segment strip_suffix ◌==◌
note-live = refl

note-current :
    snapshot one_yaml (pos 1) (written ∷ retracted ∷ []) note.key
    ≡ some (1, record { sha = codes "c0"; committed_at = pos 1; entry = dated })
unfolding walk_history_and_retractions walk_from walk_commit push_versions push_version retract_all
    retract writes gone is_written contains from_markdown to_markdown find_fence strip_prefix
    skip_newlines trim_end is_whitespace last_segment strip_suffix key_of_path file_rel legacy_rel
    dir_for_key starts_with ◌==◌ number newest is_outranked current_version_per_key
note-current = refl

note-retracted : snapshot one_yaml (pos 2) (written ∷ retracted ∷ []) note.key ≡ none
unfolding walk_history_and_retractions walk_from walk_commit push_versions push_version retract_all
    retract writes gone is_written contains from_markdown to_markdown find_fence strip_prefix
    skip_newlines trim_end is_whitespace last_segment strip_suffix key_of_path file_rel legacy_rel
    dir_for_key starts_with ◌==◌ number newest is_outranked current_version_per_key
note-retracted = refl

snapshot_example :
    ((e : Entry)
      → tree_after one_yaml note.key (written ∷ []) none ≡ some e
      → (x : ℕ × HistoryDoc) × (snapshot one_yaml (pos 1) (written ∷ retracted ∷ []) note.key
          ≡ some x)
        × (same_content (x.1).entry e ≡ true))
    × (tree_after one_yaml note.key (written ∷ []) none ≡ none
        → (snapshot one_yaml (pos 1) (written ∷ retracted ∷ []) note.key ≡ none)
          ⊎ ((x : ℕ × HistoryDoc) × (snapshot one_yaml (pos 1) (written ∷ retracted ∷ []) note.key
                ≡ some x)
              × ((x.1).entry.kind == kind_knowledge ≡ false)))
snapshot_example =
    snapshot_lem one_yaml note.key (pos 1) (written ∷ []) (retracted ∷ []) (refl, tt) (refl, tt)
