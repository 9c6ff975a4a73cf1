-- ===== src/Service/Transitions.antt =====
-- main.rs: what a transition of a task and a close may change.
use kyb.Common.{
  subst, Bool, true, false, not, ◌≡◌, refl, sym, inl, inr, Option, none, some, [], Text, ◌==◌,
  contains, ok, Bool-cases, Option-cases, arith,
}
use kyb.Entry.{Entry, status_blocked, task_live_statuses, is_valid_key, is_task, is_live_task}
use kyb.Deadline.{Deadline, is_some}
use kyb.Service.{View, stored_version}
use kyb.Service.Requests.{TransitionReq, Extra, Refusal, Built}
use kyb.Service.Moving.{
  refuse_transition_status, asks_nothing, next_status, moved, move_stored, refused, trim_status,
  unless_refused, transition_task,
}

-- The fields that a transition may set.
abbrev pub with_fields : Entry → Text → Deadline → Text → Text → Text → Entry
with_fields e status deadline assignee parent_task reason = record e {
  status = status;
  deadline = deadline;
  assignee = assignee;
  parent_task = parent_task;
  blocked_reason = reason;
}

next_status-live :
    (asked : Option Text) (archived : Bool) (e : Entry) (s : Text)
    → refused asked ≡ none
    → next_status asked archived e ≡ some s
    → contains task_live_statuses s ≡ true
unfolding next_status refuse_transition_status is_live_task
next_status-live none archived e s fits h = ground (arith, h)
next_status-live (some a) archived e s fits h = ground (arith, fits, h)

-- What a transition that is not refused has read and written.
record Moves (v : View) (key : Text) (r : TransitionReq) (stored : Option Entry) (next : Entry)
    : Type 0 where
  e : Entry
  found : stored ≡ some e
  task : is_task e ≡ true
  status : Text
  chosen : next_status (trim_status r.status) (not (is_some (v.tree key))) e ≡ some status
  written : next ≡ moved r status e

move_stored-Moves :
    (v : View) (key : Text) (r : TransitionReq) (stored : Option Entry) (next : Entry) (x : Extra)
    → move_stored v key (trim_status r.status) r stored ≡ ok (next, x)
    → Moves v key r stored next
unfolding move_stored
move_stored-Moves v key r none next x h = ground (arith, h)
move_stored-Moves v key r (some e) next x h = elim (Bool-cases (is_task e)) [
  | inl t ↦
      elim (Option-cases (next_status (trim_status r.status) (not (is_some (v.tree key))) e)) [
        | inl n ↦ let h' = (rw (t, n) at h) in ground (arith, h')
        | inr (s, c) ↦
            let h' = (rw (t, c) at h) in
            record {
              e = e;
              found = refl;
              task = t;
              status = s;
              chosen = c;
              written = ground (arith, h');
            }
      ]
  | inr t ↦ let h' = (rw t at h) in ground (arith, h')
]

unless_refused-ok :
    (o : Option Refusal) (built : Built) (p : Entry × Extra)
    → unless_refused o built ≡ ok p
    → (o ≡ none) × (built ≡ ok p)
unless_refused-ok none built p h = (refl, h)
unless_refused-ok (some refusal) built p h = ground (arith, h)

transition_task-Moves :
    (v : View) (key : Text) (r : TransitionReq) (next : Entry) (x : Extra)
    → transition_task v key r ≡ ok (next, x)
    → (refused (trim_status r.status) ≡ none) × Moves v key r (stored_version v key) next
unfolding transition_task
transition_task-Moves v key r next x h = elim (Bool-cases (is_valid_key key)) [
  | inr a ↦ let h' = (rw a at h) in ground (arith, h')
  | inl a ↦ elim (Bool-cases (asks_nothing r)) [
    | inl b ↦ let h' = (rw (a, b) at h) in ground (arith, h')
    | inr b ↦
        let (fits, built) =
          unless_refused-ok (refused (trim_status r.status))
            (move_stored v key (trim_status r.status) r (stored_version v key)) (next, x)
            (rw (a, b) at h) in
        (fits, move_stored-Moves v key r (stored_version v key) next x built)
  ]
]

keeps_own_status :
    (asked : Option Text) (there : Bool) (e : Entry) (s : Text)
    → next_status (trim_status asked) (not there) e ≡ some s
    → asked ≡ none
    → (there ≡ true) × (s ≡ e.status)
unfolding next_status
keeps_own_status none true e s h n = (refl, ground (arith, h))
keeps_own_status none false e s h n = ground (arith, h)
keeps_own_status (some a) there e s h n = ground (arith, n)

-- What may be said of the entry that a transition gives.
abbrev Kept : View → Text → TransitionReq → Entry → Entry → Type 0
Kept v key r e next =
    (is_task next ≡ true)
    × (contains task_live_statuses next.status ≡ true)
    × (next
        ≡ with_fields e next.status next.deadline next.assignee next.parent_task
            next.blocked_reason)
    × (next.status == status_blocked ≡ false → next.blocked_reason ≡ [])
    × (r.status ≡ none → (is_some (v.tree key) ≡ true) × (next.status ≡ e.status))

moved-Kept :
    (v : View) (key : Text) (r : TransitionReq) (e : Entry) (s : Text)
    → is_task e ≡ true
    → refused (trim_status r.status) ≡ none
    → next_status (trim_status r.status) (not (is_some (v.tree key))) e ≡ some s
    → Kept v key r e (moved r s e)
unfolding moved is_task
moved-Kept v key r e s task fits chosen = (
  task,
  next_status-live (trim_status r.status) (not (is_some (v.tree key))) e s fits chosen,
  refl,
  λ other. rw other refl,
  keeps_own_status r.status (is_some (v.tree key)) e s chosen,
)

-- A transition that is not refused reads a stored task. It gives a task with a live status that, but
-- for its status, deadline, assignee, parent and reason of a block, is the stored one. It has a reason only
-- when it is blocked; and where no status is asked for, the stored one is in the tree and keeps its status.
pub transition_task-keeps :
    (v : View) (key : Text) (r : TransitionReq) (next : Entry) (x : Extra)
    → transition_task v key r ≡ ok (next, x)
    → (e : Entry) × (stored_version v key ≡ some e)
      × (is_task next ≡ true)
      × (contains task_live_statuses next.status ≡ true)
      × (next
          ≡ with_fields e next.status next.deadline next.assignee next.parent_task
              next.blocked_reason)
      × (next.status == status_blocked ≡ false → next.blocked_reason ≡ [])
      × (r.status ≡ none → (is_some (v.tree key) ≡ true) × (next.status ≡ e.status))
transition_task-keeps v key r next x h =
    let (fits, m) = transition_task-Moves v key r next x h in
    let kept = moved-Kept v key r m.e m.status m.task fits m.chosen in
    let (task, live, only, reason, own) = subst (Kept v key r m.e) (sym m.written) kept in
    (m.e, m.found, task, live, only, reason, own)
