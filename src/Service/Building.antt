-- ===== src/Service/Building.antt =====
-- main.rs: the entries that `upsert`, `upsert_incident` and `upsert_task` build of their requests and of
-- the stored versions, with the notes for the writer.
use kyb.Common.{
  Bool, true, not, ◌&&◌, ◌||◌, ◌+◌, leb, Option, none, some, List, [], ◌∷◌, map, retain, Text,
  codes, starts_with, trim, is_empty, is_nil, if◌then◌else◌,
}
use kyb.Entry.{Entry, empty_entry, kind_incident, kind_task, is_valid_key, is_closed}
use kyb.Deadline.{Deadline, default, is_some, apply}
use kyb.Service.{View, stored_version, stamp_timeline, is_blank, stamp_if}
use kyb.Service.Requests.{
  UpsertReq, IncidentReq, TaskReq, Hint, no_detection, no_affected, no_followups, no_root_cause,
  Extra, null,
}

abbrev pub stored_tags : Option Entry → List Text
stored_tags none = []
stored_tags (some e) = e.tags

abbrev pub tags_or_stored : Option (List Text) → Option Entry → List Text
tags_or_stored none stored = stored_tags stored
tags_or_stored (some tags) stored = tags

abbrev pub in_tree : View → Text → Bool
in_tree v k = is_some (v.tree k)

abbrev pub unknown_keys : View → List Text → List Text
unknown_keys v keys = retain (λ k. is_valid_key k && not (in_tree v k)) keys

unfoldable pub includes : Text → Text → Bool
includes part [] = is_empty part
includes part (c ∷ s) = let rest = includes part s in starts_with part (c ∷ s) || rest

-- Of the letters that the lower case of a text is read for here, each is the lower case of one
-- capital, which is an ASCII letter.
abbrev pub to_lowercase : Text → Text
to_lowercase s = map (λ c. if leb 65 c && leb c 90 then c + 32 else c) s

abbrev hint_if : Bool → Hint → List Hint → List Hint
hint_if due hint later = if due then hint ∷ later else later

unfoldable pub incident_hints : Entry → List Hint
incident_hints e = hint_if (is_blank e.detection) no_detection (
    hint_if (is_nil e.affected) no_affected (
      hint_if (not (includes (codes "- [ ]") e.body) && not (includes (codes "- [x]") e.body))
        no_followups
        (hint_if (not (includes (codes "root cause") (to_lowercase e.body))) no_root_cause [])))

unfoldable pub upsert_entry : UpsertReq → Entry
upsert_entry r = record empty_entry {
  key = r.key;
  title = r.title;
  tags = r.tags;
  refs = r.refs;
  body = r.body;
}

unfoldable pub incident_entry : View → Text → IncidentReq → Entry
incident_entry v now r = stamp_timeline v now (record empty_entry {
  key = r.key;
  title = r.title;
  kind = kind_incident;
  service = r.service;
  hosts = r.hosts;
  severity = r.severity;
  status = r.status;
  knowledge = r.knowledge;
  resolution = r.resolution;
  detection = r.detection;
  affected = r.affected;
  started_at = r.started_at;
  detected_at = r.detected_at;
  tags = tags_or_stored r.tags (stored_version v r.key);
  refs = r.refs;
  body = r.body;
})

unfoldable pub upsert_incident : View → Text → IncidentReq → Entry × Extra
upsert_incident v now r =
    let e = incident_entry v now r in
    (e, record null { unknown_knowledge = unknown_keys v e.knowledge; hints = incident_hints e })

unfoldable pub unknown_parent : View → Entry → Option Text
unknown_parent v e =
    let parent = trim e.parent_task in
    if is_empty parent || not (is_valid_key parent)
    then none
    else if is_some (stored_version v parent)
    then none
    else some parent

abbrev pub stored_deadline : Option Entry → Deadline
stored_deadline none = default
stored_deadline (some e) = e.deadline

abbrev pub stored_resolved_at : Text → Option Entry → Text
stored_resolved_at mine none = mine
stored_resolved_at mine (some e) = e.resolved_at

unfoldable pub task_entry : View → Text → TaskReq → Entry
task_entry v now r =
    let stored = stored_version v r.key in
    let e = record empty_entry {
      key = r.key;
      title = r.title;
      kind = kind_task;
      status = r.status;
      priority = r.priority;
      blocked_reason = r.blocked_reason;
      assignee = trim r.assignee;
      parent_task = trim r.parent_task;
      deadline = apply r.deadline (stored_deadline stored);
      knowledge = r.knowledge;
      resolution = r.resolution;
      tags = tags_or_stored r.tags stored;
      refs = r.refs;
      body = r.body;
    } in
    if is_closed e && is_blank e.resolved_at
    then record e { resolved_at = stamp_if true now (stored_resolved_at e.resolved_at stored) }
    else e

unfoldable pub upsert_task : View → Text → TaskReq → Entry × Extra
upsert_task v now r =
    let e = task_entry v now r in
    (
      e,
      record null {
        unknown_knowledge = unknown_keys v e.knowledge;
        unknown_parent = unknown_parent v e;
      },
    )
