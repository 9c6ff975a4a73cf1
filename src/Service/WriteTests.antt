-- ===== src/Service/WriteTests.antt =====
-- Locked writes over the repository in memory, and the theorems at them.
use kyb.Common.{trim_end, is_whitespace, strip_prefix, ltb, ◌&&◌, starts_with, ◌==◌}
use kyb.Common.Int.{pos}
use kyb.Auth.{Role, rank}
use kyb.Entry.{kind_knowledge}
use kyb.Entry.Markdown.{from_markdown, to_markdown, find_fence, skip_newlines}
use kyb.Store.{legacy_rel, dir_for_key, delete, remove_file}
use kyb.Store.Memory.{note-valid}
use kyb.Service.Removal.{needs_admin, retracted, remove, remove_committed}
use kyb.Service.Removals.{Removes, remove_lem}
use kyb.Common.{
  ℕ, suc, true, false, ◌≡◌, ◌≢◌, refl, Option, none, some, List, [], Text, codes, ◌==◌,
  if◌then◌else◌, ok, contains, trim, trim_start, trim_end, is_whitespace, starts_with, byte_len,
}
use kyb.Deadline.{Chrono}
use kyb.Entry.{Entry, is_valid_key, ends_with_dash, is_task, is_incident, is_closed}
use kyb.Entry.Comparing.{same_content}
use kyb.Entry.Validation.{empty_title, validate, check_kind, check_knowledge}
use kyb.Entry.Markdown.{from_markdown, skip_newlines}
use kyb.Secrets.{find_secret, find_in}
use kyb.Deadline
use kyb.Common.Sorts.{sort_by}
use kyb.Keys.{similar_keys, near_keys}
use kyb.Store.{file_rel, get, existing_rel, upsert, write_entry}
use kyb.Store.Memory.{
  Memory, memory, memory-Files, note, dated, one_yaml, dated-ReadBack, same_content-dated,
}
use kyb.Service.{View, stored_version}
use kyb.Service.Parents.{validate_task_parent_chain}
use kyb.Service.Requests.{Built, null}
use kyb.Service.State.{
  Past, IndexWriter, create, Landed, Reply, invalid, done, AppState, Env, note_write,
}
use kyb.Service.Commit.{view, commit_locked, locked_write, written}
use kyb.Service.Writes.{locked_write_lem}
use kyb.Service.Refusals.{is_refusal, locked_write-ends, locked_write-refuses}

abbrev no_past : Past memory
no_past = record {
  latest = λ r k. none;
  has_history = λ r k. false;
  known = λ r. [];
  rev_time = λ r sha. none;
}

abbrev counted : IndexWriter
counted = record {
  State = ℕ;
  upsert_head = λ e s t n. (true, suc n);
  commit_and_reload = λ n. (true, n);
  delete_head = λ k n. n;
  retract = λ k t n. n;
}

abbrev small : Env
small = record {
  chrono = record { parse_date = λ s. none; parse_rfc3339 = λ s. none; parse_minutes = λ s. none };
  regex_find = λ re s. none;
  cap_of = λ n. n;
  yaml = one_yaml;
  repo = memory;
  past = no_past;
  index = counted;
}

abbrev empty_state : AppState small
empty_state = record {
  store = λ p. none;
  docs = 0;
  history_gen = 0;
  archived_since = [];
  note_seq = 0;
}

abbrev write_note : View → Built
write_note v = ok (note, null)

abbrev filed : Memory
filed q =
    if file_rel note.key == q then some (kyb.Entry.Markdown.to_markdown one_yaml dated) else none

abbrev filed_state : AppState small
filed_state = record { store = filed; docs = 1; history_gen = 2; archived_since = []; note_seq = 0 }

abbrev note_landed : Landed
note_landed = record {
  key = note.key;
  sha = some (codes "c0");
  action = some create;
  similar = [];
  revived = false;
  extra = null;
  archive_sha = none;
}

note-written :
    locked_write small 1 (codes "d") write_note empty_state
    ≡ some (done note_landed, some dated, filed_state)
unfolding locked_write note_write commit_locked validate check_kind check_knowledge is_valid_key
    ends_with_dash byte_len starts_with trim trim_start trim_end is_whitespace find_secret find_in
    Deadline.validate validate_task_parent_chain is_task is_incident is_closed contains ◌==◌ written
    upsert get existing_rel write_entry similar_keys sort_by near_keys
note-written = refl

locked_write_example :
    (is_closed note ≡ false
      → (y : Entry) × (get one_yaml memory note.key filed ≡ ok (some y))
        × (same_content y note ≡ true))
    × ((sha : Text)
        → is_closed note ≡ true
        → note_landed.archive_sha ≡ some sha
        → get one_yaml memory note.key filed ≡ ok none)
    × ((j : Text)
        → is_valid_key j ≡ true
        → note.key ≢ j
        → get one_yaml memory j filed ≡ get one_yaml memory j (λ p. none))
locked_write_example =
    locked_write_lem small memory-Files 1 (codes "d") write_note note dated null note_landed
      (some dated) empty_state filed_state refl dated-ReadBack same_content-dated refl note-written

nothing_stored :
    (k : Text) → stored_version (view small empty_state.store) k ≢ none → contains [] k ≡ true
unfolding stored_version get existing_rel
nothing_stored k h = absurd (h refl)

locked_write-ends_example :
    (out : Reply × Option Entry × AppState small) × (locked_write small 1
        (codes "d")
        write_note
        empty_state
      ≡ some out)
locked_write-ends_example =
    locked_write-ends small (codes "d") write_note empty_state [] nothing_stored

-- An entry without a title is refused.
abbrev write_untitled : View → Built
write_untitled v = ok (record note { title = [] }, null)

untitled_refused :
    locked_write small 1 (codes "d") write_untitled filed_state
    ≡ some (invalid empty_title, none, record filed_state { history_gen = 4 })
unfolding locked_write note_write commit_locked validate check_kind is_valid_key ends_with_dash
    byte_len starts_with trim trim_start trim_end is_whitespace is_task is_incident is_closed
    contains ◌==◌
untitled_refused = refl

locked_write-refuses_example :
    (filed ≡ filed)
    × (◌≡◌ {A = ℕ} 1 1)
    × (◌≡◌ {A = List (ℕ × Text)} [] [])
    × (◌≡◌ {A = Option Entry} none none)
unfolding is_refusal
locked_write-refuses_example =
    locked_write-refuses small 1 (codes "d") write_untitled filed_state
      (record filed_state { history_gen = 4 }) (invalid empty_title) none untitled_refused refl

note-stored : get one_yaml memory note.key filed ≡ ok (some dated)
unfolding get existing_rel file_rel legacy_rel dir_for_key from_markdown to_markdown find_fence
    strip_prefix skip_newlines trim_end is_whitespace starts_with ◌==◌
note-stored = refl

note-one_file :
    (memory.is_file filed (file_rel note.key) && memory.is_file filed (legacy_rel note.key)) ≡ false
unfolding file_rel legacy_rel dir_for_key starts_with ◌==◌
note-one_file = refl

remove_example :
    (dated.kind == kind_knowledge ≡ true
      → ltb (rank Role.admin) (rank Role.admin) ≡ true
      → remove small Role.admin (pos 5) note.key filed_state ≡ (needs_admin, none, filed_state))
    × Removes small memory-Files note.key
        (dated.kind == kind_knowledge)
        filed_state
        (remove small Role.admin (pos 5) note.key filed_state)
remove_example =
    remove_lem small memory-Files Role.admin (pos 5) note.key dated filed_state note-valid
      note-stored note-one_file

-- A writer may not retract the note; an administrator may.
note-kept : remove small Role.write (pos 5) note.key filed_state ≡ (needs_admin, none, filed_state)
unfolding remove is_valid_key ends_with_dash byte_len get existing_rel file_rel legacy_rel
    dir_for_key from_markdown to_markdown find_fence strip_prefix skip_newlines trim_end
    is_whitespace starts_with ◌==◌
note-kept = refl

note-removed : (remove small Role.admin (pos 5) note.key filed_state).0 ≡ retracted (codes "c0")
unfolding remove remove_committed note_write delete remove_file is_valid_key ends_with_dash byte_len
    get existing_rel file_rel legacy_rel dir_for_key from_markdown to_markdown find_fence
    strip_prefix skip_newlines trim_end is_whitespace starts_with ◌==◌
note-removed = refl
