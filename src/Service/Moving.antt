-- ===== src/Service/Moving.antt =====
-- main.rs: `close_entry`, and `transition_task` with its refusals.
use kyb.Common.{
  Bool, true, false, not, ◌&&◌, ◌||◌, ltb, Option, none, some, [], Text, codes, ◌==◌, trim,
  contains, if◌then◌else◌, ok, err,
}
use kyb.Entry.{
  Entry, status_blocked, task_live_statuses, task_terminal_statuses, is_valid_key, is_incident,
  is_task, is_closed, is_live_task, open_followups,
}
use kyb.Deadline.{is_absent, is_some, names_nothing, apply}
use kyb.Service.{View, stored_version, stamp_timeline, or_stored}
use kyb.Service.Requests.{
  ResolveReq, TransitionReq, Extra, null, Refusal, invalid_key, no_entry, not_an_incident,
  not_a_task, nothing_to_change, closes_a_task, unknown_status, needs_a_status, Built,
}
use kyb.Service.Building.{in_tree, unknown_parent}

abbrev pub or_default : Option Text → Text → Text
or_default none d = d
or_default (some s) d = s

abbrev pub wrong_kind : Bool → Entry → Bool
wrong_kind true e = not (is_task e)
wrong_kind false e = is_task e || not (is_incident e)

abbrev pub default_close : Bool → Text
default_close true = codes "done"
default_close false = codes "resolved"

abbrev pub closed_with : Bool → ResolveReq → Entry → Entry
closed_with want_task r e =
    let status = or_default r.status (default_close want_task) in
    record e {
      status = status;
      blocked_reason = if status == status_blocked then e.blocked_reason else [];
      resolution = or_stored r.resolution e.resolution;
    }

abbrev pub close_extra : Entry → Extra
close_extra e = record null {
  open_followups =
      if ltb 0 (open_followups e) && is_closed e then some (open_followups e) else none;
}

abbrev pub close_stored : View → Text → Bool → ResolveReq → Option Entry → Built
close_stored v now want_task r none = err no_entry
close_stored v now want_task r (some e) =
    if wrong_kind want_task e
    then err (if want_task then not_a_task else not_an_incident)
    else let closed = stamp_timeline v now (closed_with want_task r e) in
      ok (closed, close_extra closed)

-- What `close_entry` builds under the lock; `want_task` tells the route of tasks from that of incidents.
unfoldable pub close_entry : View → Text → Text → Bool → ResolveReq → Built
close_entry v now key want_task r =
    if not (is_valid_key key)
    then err invalid_key
    else close_stored v now want_task r (stored_version v key)

unfoldable pub refuse_transition_status : Text → Option Refusal
refuse_transition_status status =
    if contains task_terminal_statuses status
    then some closes_a_task
    else if not (contains task_live_statuses status)
    then some unknown_status
    else none

abbrev pub asks_nothing : TransitionReq → Bool
asks_nothing r =
    not (is_some r.status)
    && names_nothing r.deadline
    && not (is_some r.assignee)
    && not (is_some r.parent_task)
    && not (is_some r.blocked_reason)

-- The status that a task moves to; a task keeps its own only while it is live and in the tree.
unfoldable pub next_status : Option Text → Bool → Entry → Option Text
next_status (some s) archived e = some s
next_status none archived e = if is_live_task e && not archived then some e.status else none

abbrev pub set_trimmed : Option Text → Text → Text
set_trimmed none stored = stored
set_trimmed (some s) stored = trim s

abbrev pub set_reason : Option Text → Text → Text
set_reason none stored = stored
set_reason (some s) stored = s

unfoldable pub moved : TransitionReq → Text → Entry → Entry
moved r status e = record e {
  status = status;
  deadline = apply r.deadline e.deadline;
  assignee = set_trimmed r.assignee e.assignee;
  parent_task = set_trimmed r.parent_task e.parent_task;
  blocked_reason =
      if status == status_blocked then set_reason r.blocked_reason e.blocked_reason else [];
}

abbrev pub transition_extra : View → Entry → Extra
transition_extra v e = record null {
  status = some e.status;
  assignee = some e.assignee;
  deadline = if is_absent e.deadline then none else some e.deadline;
  unknown_parent = unknown_parent v e;
}

abbrev pub moved_to : View → TransitionReq → Entry → Option Text → Built
moved_to v r e none = err needs_a_status
moved_to v r e (some status) = let next = moved r status e in ok (next, transition_extra v next)

-- What stands under the lock.
unfoldable pub move_stored : View → Text → Option Text → TransitionReq → Option Entry → Built
move_stored v key status r none = err no_entry
move_stored v key status r (some e) =
    if not (is_task e)
    then err not_a_task
    else moved_to v r e (next_status status (not (in_tree v key)) e)

abbrev pub refused : Option Text → Option Refusal
refused none = none
refused (some status) = refuse_transition_status status

abbrev pub trim_status : Option Text → Option Text
trim_status none = none
trim_status (some s) = some (trim s)

abbrev pub unless_refused : Option Refusal → Built → Built
unless_refused none built = built
unless_refused (some refusal) built = err refusal

unfoldable pub transition_task : View → Text → TransitionReq → Built
transition_task v key r =
    let status = trim_status r.status in
    if not (is_valid_key key)
    then err invalid_key
    else if asks_nothing r
    then err nothing_to_change
    else unless_refused (refused status) (move_stored v key status r (stored_version v key))
