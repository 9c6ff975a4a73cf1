-- ===== src/Entry/Validation.antt =====
-- model.rs: `Entry::validate`. A check that fails returns what it is about; the texts are left out.
use kyb.Common.{
  Bool, not, ◌&&◌, ◌||◌, Option, Text, ◌==◌, trim, is_empty, starts_with, contains, codes, length,
  all, any, eqb, leb, if◌then◌else◌, Result, ok, err, ◌>>◌, ensure,
}
use kyb.Secrets.{find_secret}
use kyb.Deadline.{Chrono, DeadlineError, is_some}
use kyb.Deadline
use kyb.Entry.{
  Entry, Window, kind_knowledge, kind_incident, kind_task, incident_prefix, task_prefix, severities,
  statuses, task_statuses, priorities, status_blocked, assignee_max_len, is_valid_key, is_task,
  is_closed,
}

pub data EntryError : Type 0 where
  bad_key empty_title reserved_prefix missing_prefix bad_kind bad_status bad_priority : EntryError
  stale_reason no_resolution blank_assignee long_assignee assignee_lines : EntryError
  bad_parent own_parent bad_link no_service bad_severity bad_window task_field : EntryError
  secret_resolution secret_reason secret_assignee secret_detection : EntryError
  secret_body secret_ref : EntryError
  bad_deadline : DeadlineError → EntryError

abbrev pub is_blank : Text → Bool
is_blank s = is_empty (trim s)

abbrev pub lift : Result DeadlineError (Unit {0}) → Result EntryError (Unit {0})
lift (ok t) = ok t
lift (err e) = err (bad_deadline e)

abbrev pub is_whole : Window → Bool
is_whole w = not (is_blank w.scope || is_blank w.from || is_blank w.to)

module _ (chrono : Chrono) (regex_find : Text → Text → Option Text) where
  abbrev pub has_secret : Text → Bool
  has_secret s = is_some (find_secret regex_find s)

  unfoldable pub check_knowledge : Entry → Result EntryError (Unit {0})
  check_knowledge e = do
    ensure (not (starts_with incident_prefix e.key)) reserved_prefix
    ensure (not (starts_with task_prefix e.key)) reserved_prefix

  unfoldable pub check_task : Entry → Result EntryError (Unit {0})
  check_task e = do
    ensure (starts_with task_prefix e.key) missing_prefix
    ensure (contains task_statuses e.status) bad_status
    ensure (is_empty e.priority || contains priorities e.priority) bad_priority
    ensure (e.status == status_blocked || is_blank e.blocked_reason) stale_reason
    ensure (not (is_closed e && is_blank e.resolution)) no_resolution
    ensure (is_empty e.assignee || not (is_blank e.assignee)) blank_assignee
    ensure (is_empty e.assignee || leb (length e.assignee) assignee_max_len) long_assignee
    ensure (is_empty e.assignee || not (any (λ c. eqb c 10 || eqb c 13) e.assignee)) assignee_lines
    ensure
        (is_empty e.parent_task
          || (is_valid_key e.parent_task && starts_with task_prefix e.parent_task))
        bad_parent
    ensure (is_empty e.parent_task || not (e.parent_task == e.key)) own_parent
    ensure (all is_valid_key e.knowledge) bad_link
    ensure (not (has_secret e.resolution)) secret_resolution
    ensure (not (has_secret e.blocked_reason)) secret_reason
    ensure (not (has_secret e.assignee)) secret_assignee

  unfoldable pub check_incident : Entry → Result EntryError (Unit {0})
  check_incident e = do
    ensure (starts_with incident_prefix e.key) missing_prefix
    ensure (not (is_blank e.service)) no_service
    ensure (contains severities e.severity) bad_severity
    ensure (contains statuses e.status) bad_status
    ensure (not (e.status == codes "resolved" && is_blank e.resolution)) no_resolution
    ensure (all is_valid_key e.knowledge) bad_link
    ensure (all is_whole e.affected) bad_window
    ensure (not (has_secret e.resolution)) secret_resolution
    ensure (not (has_secret e.detection)) secret_detection

  -- The `match` on the kind.
  unfoldable pub check_kind : Entry → Result EntryError (Unit {0})
  check_kind e =
      if e.kind == kind_knowledge
      then check_knowledge e
      else if e.kind == kind_task
      then check_task e
      else if e.kind == kind_incident
      then check_incident e
      else err bad_kind

  unfoldable pub validate : Entry → Result EntryError (Unit {0})
  validate e = do
    ensure (is_valid_key e.key) bad_key
    ensure (not (is_blank e.title)) empty_title
    check_kind e
    ensure (is_task e || is_blank e.priority) task_field
    ensure (is_task e || is_blank e.blocked_reason) task_field
    ensure (is_task e || is_blank e.assignee) task_field
    ensure (is_task e || is_blank e.parent_task) task_field
    lift (kyb.Deadline.validate chrono regex_find (is_task e) e.deadline)
    ensure (not (has_secret e.body)) secret_body
    ensure (all (λ r. not (has_secret r)) e.refs) secret_ref
