-- ===== src/Store/Tests.antt =====
-- The store on the repository in memory: what is written is read back, and what is archived is gone.
use kyb.Common.{
  [], ◌∷◌, true, false, ◌&&◌, ◌≡◌, ◌≢◌, ◌⊎◌, ◌↔◌, refl, none, some, Text, codes, ◌==◌,
  if◌then◌else◌, ok, starts_with, trim_end,
}
use kyb.Deadline.{is_some}
use kyb.Entry.{Entry, is_valid_key}
use kyb.Entry.Comparing.{same_content}
use kyb.Entry.Markdown.{from_markdown, to_markdown, skip_newlines}
use kyb.Entry.Reading.{from_markdown-to_markdown}
use kyb.Store.{
  created, unchanged, file_rel, legacy_rel, dir_for_key, get, existing_rel, upsert, write_entry,
  archive, remove_file, key_of_path,
}
use kyb.Store.Memory.{
  Memory, commit_0, memory, memory-Files, note, dated, one_yaml, find_fence-plain, yaml-read,
  note-valid, dated-ReadBack, same_content-dated,
}
use kyb.Common.Int.{pos}
use kyb.Store.History.{CommitInfo, added, modified, in_history}
use kyb.Store.Served.{serve_all, rebuilt, serve_all_lem}
use kyb.Store.Paths.{key_of_path_iff}
use kyb.Store.Effects.{upsert_lem, archive_lem}

from_markdown_example :
    from_markdown one_yaml (to_markdown one_yaml dated)
    ≡ ok (record dated { body = trim_end (skip_newlines (trim_end dated.body)) })
from_markdown_example =
    from_markdown-to_markdown one_yaml dated (codes "k") refl find_fence-plain yaml-read

key_of_path_example : (key_of_path (codes "knowledge/a.md") ≡ some note.key) ↔ (
    (codes "knowledge/a.md" ≡ file_rel note.key) ⊎ (codes "knowledge/a.md" ≡ legacy_rel note.key))
key_of_path_example = key_of_path_iff (codes "knowledge/a.md") note.key note-valid

abbrev nothing_filed : Memory
nothing_filed p = none

after_upsert : Memory
after_upsert q = if file_rel note.key == q then some (to_markdown one_yaml dated) else none

upsert-note :
    upsert one_yaml memory note (codes "d") nothing_filed
    ≡ (ok (created commit_0 dated), after_upsert)
unfolding upsert get existing_rel write_entry after_upsert
upsert-note = refl

upsert_example :
    ((x : Entry) × (get one_yaml memory note.key after_upsert ≡ ok (some x))
      × (same_content x note ≡ true)
      × ((later : Text)
          → upsert one_yaml memory note later after_upsert ≡ (ok (unchanged x), after_upsert)))
    × ((j : Text)
        → is_valid_key j ≡ true
        → note.key ≢ j
        → get one_yaml memory j after_upsert ≡ get one_yaml memory j nothing_filed)
upsert_example =
    upsert_lem one_yaml memory memory-Files note dated (codes "d") nothing_filed after_upsert
      (created commit_0 dated) note-valid dated-ReadBack same_content-dated upsert-note

after_archival : Memory
after_archival q = if file_rel note.key == q then none else after_upsert q

archive-note :
    archive one_yaml memory note.key after_upsert ≡ (ok (some (codes "c0")), after_archival)
unfolding archive remove_file existing_rel after_upsert after_archival file_rel dir_for_key
    starts_with ◌==◌
archive-note = refl

one_file :
    (is_some (after_upsert (file_rel note.key)) && is_some (after_upsert (legacy_rel note.key)))
    ≡ false
unfolding after_upsert file_rel legacy_rel dir_for_key starts_with ◌==◌
one_file = refl

archive_example :
    (get one_yaml memory note.key after_archival ≡ ok none)
    × ((j : Text)
        → is_valid_key j ≡ true
        → note.key ≢ j
        → get one_yaml memory j after_archival ≡ get one_yaml memory j after_upsert)
archive_example =
    archive_lem one_yaml memory memory-Files note.key (codes "c0") after_upsert after_archival
      note-valid one_file archive-note

abbrev first_commit : CommitInfo
first_commit = record {
  sha = codes "c0";
  time = pos 1;
  message = codes "kyb: upsert a\n\nKyb-Agent: x\n";
  summary = codes "kyb: upsert a";
  author_name = codes "n";
  author_email = codes "e";
  deltas = record { path = codes "knowledge/a.md"; change = added } ∷ [];
}

abbrev second_commit : CommitInfo
second_commit = record first_commit {
  sha = codes "c1";
  time = pos 2;
  deltas = record { path = codes "knowledge/a.md"; change = modified } ∷ [];
}

second_new : in_history first_commit.sha (second_commit ∷ []) ≡ false
unfolding in_history ◌==◌
second_new = refl

none_newer : in_history second_commit.sha [] ≡ false
unfolding in_history
none_newer = refl

serve_all_example :
    serve_all none [] ((first_commit ∷ []) ∷ (second_commit ∷ []) ∷ [] ∷ [])
    ≡ rebuilt [] ((first_commit ∷ []) ∷ (second_commit ∷ []) ∷ [] ∷ [])
serve_all_example =
    serve_all_lem ((first_commit ∷ []) ∷ (second_commit ∷ []) ∷ [] ∷ [])
      (tt, (second_new, (none_newer, tt)))
