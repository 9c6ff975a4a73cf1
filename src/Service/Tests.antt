-- ===== src/Service/Tests.antt =====
-- Requests on a small store, and the theorems at them.
use kyb.Common.{
  true, false, ◌≡◌, ◌≢◌, inl, inr, refl, none, some, List, [], ◌∷◌, Text, codes, ◌==◌,
  if◌then◌else◌, ok, err, Bool-cases, contains, trim, trim_start, trim_end, is_whitespace,
  starts_with, byte_len,
}
use kyb.Diff.{lines}
use kyb.Deadline.{DeadlinePatch, is_some, apply, names_nothing}
use kyb.Entry.{
  Entry, empty_entry, kind_task, status_blocked, task_live_statuses, is_task, is_incident,
  is_closed, is_valid_key, ends_with_dash, open_followups,
}
use kyb.Service.{View, stored_version, stamp_timeline, is_blank}
use kyb.Service.Parents.{ChainError, climb, validate_task_parent_chain}
use kyb.Service.Forest.{Ends, top, validate_task_parent_chain-Ends}
use kyb.Service.Requests.{TransitionReq, ResolveReq, Extra, null}
use kyb.Service.Moving.{
  transition_task, refuse_transition_status, next_status, moved, move_stored, close_entry,
  wrong_kind,
}
use kyb.Service.Building.{unknown_parent}
use kyb.Service.Timeline.{Stamped, Kept, with_stamps, stamp_timeline_lem}
use kyb.Service.Transitions.{with_fields, transition_task-keeps}
use kyb.Service.Closing.{with_outcome, close_entry-keeps}

abbrev parent : Entry
parent = record empty_entry {
  key = codes "task-b";
  title = codes "b";
  kind = kind_task;
  status = codes "open";
}

abbrev child : Entry
child = record parent { key = codes "task-a"; parent_task = codes "task-b" }

abbrev filed : View
filed = record { tree = λ k. if codes "task-b" == k then some parent else none; latest = λ k. none }

abbrev filed_keys : List Text
filed_keys = codes "task-b" ∷ []

filed-covered : (k : Text) → stored_version filed k ≢ none → contains filed_keys k ≡ true
unfolding stored_version contains
filed-covered k h = elim (Bool-cases (codes "task-b" == k)) [
  | inl e ↦ rw e refl
  | inr e ↦ absurd (h (rw (stored_version, e) refl))
]

filed-Ends : (k : Text) → Ends filed k
unfolding stored_version
filed-Ends k = elim (Bool-cases (codes "task-b" == k)) [
  | inl e ↦ top (rw (stored_version, e) refl)
  | inr e ↦ top (rw (stored_version, e) refl)
]

abbrev with_child : View
with_child = record {
  tree = λ k. if child.key == k then some child else filed.tree k;
  latest = λ k. none;
}

with_child-put :
    (k : Text)
    → stored_version with_child k ≡ (if child.key == k then some child else stored_version filed k)
unfolding stored_version
with_child-put k = elim (Bool-cases (child.key == k)) [
  | inl e ↦ rw (stored_version, e) refl
  | inr e ↦ rw (stored_version, e) refl
]

child-passes : validate_task_parent_chain 2 filed child ≡ some (ok tt)
unfolding validate_task_parent_chain climb stored_version is_task ◌==◌ contains
child-passes = refl

child-is_task : is_task child ≡ true
unfolding is_task ◌==◌
child-is_task = refl

-- The child is its own ancestor where its parent already hangs under it.
child-in_cycle :
    validate_task_parent_chain 2 with_child (record parent { parent_task = codes "task-a" })
    ≡ some (err ChainError.makes_cycle)
unfolding validate_task_parent_chain climb stored_version is_task ◌==◌ contains
child-in_cycle = refl

validate_task_parent_chain-Ends_example : Ends with_child (codes "task-a")
validate_task_parent_chain-Ends_example =
    validate_task_parent_chain-Ends 2 filed with_child child child-is_task filed-Ends child-passes
      with_child-put (codes "task-a")

abbrev keep : DeadlinePatch
keep = record { due = none; hard = none; remind_days = none; waits_on = none; expected = none }

abbrev to_block : TransitionReq
to_block = record {
  status = some (codes " blocked");
  assignee = some (codes "a ");
  parent_task = none;
  blocked_reason = some (codes "b");
  deadline = keep;
}

abbrev blocked_parent : Entry
blocked_parent = record parent {
  status = codes "blocked";
  assignee = codes "a";
  blocked_reason = codes "b";
}

abbrev told_status : Extra
told_status = record null { status = some (codes "blocked"); assignee = some (codes "a") }

parent-blocked : transition_task filed (codes "task-b") to_block ≡ ok (blocked_parent, told_status)
unfolding transition_task is_valid_key ends_with_dash byte_len starts_with names_nothing trim
    trim_start trim_end is_whitespace refuse_transition_status contains ◌==◌ move_stored
    stored_version is_task next_status moved apply unknown_parent
parent-blocked = refl

transition_task_example :
    (e : Entry) × (stored_version filed (codes "task-b") ≡ some e)
    × (is_task blocked_parent ≡ true)
    × (contains task_live_statuses blocked_parent.status ≡ true)
    × (blocked_parent
        ≡ with_fields e blocked_parent.status blocked_parent.deadline blocked_parent.assignee
            blocked_parent.parent_task blocked_parent.blocked_reason)
    × (blocked_parent.status == status_blocked ≡ false → blocked_parent.blocked_reason ≡ [])
    × (to_block.status ≡ none
        → (is_some (filed.tree (codes "task-b")) ≡ true) × (blocked_parent.status ≡ e.status))
transition_task_example =
    transition_task-keeps filed (codes "task-b") to_block blocked_parent told_status parent-blocked

abbrev finish : ResolveReq
finish = record { resolution = codes "r"; status = none }

abbrev done_parent : Entry
done_parent = record parent {
  status = codes "done";
  resolution = codes "r";
  resolved_at = codes "n";
}

now-says : is_blank (codes "n") ≡ false
unfolding trim trim_start trim_end is_whitespace
now-says = refl

parent-done : close_entry filed (codes "n") (codes "task-b") true finish ≡ ok (done_parent, null)
unfolding close_entry is_valid_key ends_with_dash byte_len starts_with trim trim_start trim_end
    is_whitespace contains ◌==◌ stored_version is_task is_incident is_closed stamp_timeline
    open_followups lines
parent-done = refl

close_entry_example :
    (old : Entry) × (stored_version filed (codes "task-b") ≡ some old)
    × (wrong_kind true old ≡ false)
    × (done_parent ≡ with_outcome old done_parent)
    × (is_blank old.resolution ≡ false → is_blank done_parent.resolution ≡ false)
    × (is_blank finish.resolution ≡ false → done_parent.resolution ≡ finish.resolution)
    × Stamped done_parent
close_entry_example =
    close_entry-keeps filed (codes "n") (codes "task-b") true finish done_parent null now-says
      parent-done

-- A stamp of the stored version, and one that is due.
abbrev stamped_before : View
stamped_before = record {
  tree = λ k. some (record done_parent { started_at = codes "s" });
  latest = λ k. none;
}

abbrev resent : Entry
resent = record done_parent { resolved_at = [] }

stamps :
    stamp_timeline stamped_before (codes "l") resent ≡ record done_parent { started_at = codes "s" }
unfolding stamp_timeline stored_version trim trim_start trim_end is_whitespace ◌==◌ is_task
    is_incident is_closed contains
stamps = refl

stamp_timeline_example :
    (stamp_timeline stamped_before (codes "n") resent
      ≡ with_stamps resent (stamp_timeline stamped_before (codes "n") resent))
    × Stamped (stamp_timeline stamped_before (codes "n") resent)
    × ((old : Entry)
        → stored_version stamped_before resent.key ≡ some old
        → Kept old (stamp_timeline stamped_before (codes "n") resent))
    × ((v' : View) (later : Text)
        → stored_version v' resent.key ≡ some (stamp_timeline stamped_before (codes "n") resent)
        → stamp_timeline v' later (stamp_timeline stamped_before (codes "n") resent)
          ≡ stamp_timeline stamped_before (codes "n") resent)
stamp_timeline_example = stamp_timeline_lem stamped_before (codes "n") resent now-says
