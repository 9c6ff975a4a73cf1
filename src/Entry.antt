-- ===== src/Entry.antt =====
-- model.rs: the entries of the knowledge base, what an entry may be, and when two are the same.
-- `from_markdown` and `to_markdown` are YAML and left out.
pub mod Validation
pub mod Accepted
pub mod Lifecycle
pub mod Equality
pub mod Markdown
pub mod Reading
pub mod Comparing
mod Tests
use kyb.Common.{
  ℕ, Bool, true, false, not, ◌&&◌, ◌||◌, Option, none, some, List, [], ◌∷◌, reverse, Text, codes,
  ◌==◌, byte_len, trim, trim_end, trim_start, is_empty, starts_with, contains, length, all, any,
  retain, eqb, leb, ltb, if◌then◌else◌, Result, ok, err, ◌>>◌, ensure,
}
use kyb.Secrets.{find_secret}
use kyb.Diff.{lines}
use kyb.Deadline.{Chrono, Deadline, default, DeadlineError, is_some}

abbrev pub kind_knowledge : Text
kind_knowledge = codes "knowledge"

abbrev pub kind_incident : Text
kind_incident = codes "incident"

abbrev pub kind_task : Text
kind_task = codes "task"

abbrev pub incident_prefix : Text
incident_prefix = codes "inc-"

abbrev pub task_prefix : Text
task_prefix = codes "task-"

abbrev pub severities : List Text
severities = codes "low" ∷ codes "medium" ∷ codes "high" ∷ codes "critical" ∷ []

abbrev pub statuses : List Text
statuses = codes "open" ∷ codes "mitigated" ∷ codes "resolved" ∷ []

abbrev pub task_statuses : List Text
task_statuses =
    codes "open" ∷ codes "in_progress" ∷ codes "blocked" ∷ codes "done" ∷ codes "dropped" ∷ []

abbrev pub task_live_statuses : List Text
task_live_statuses = codes "open" ∷ codes "in_progress" ∷ codes "blocked" ∷ []

abbrev pub task_terminal_statuses : List Text
task_terminal_statuses = codes "done" ∷ codes "dropped" ∷ []

abbrev pub priorities : List Text
priorities = codes "low" ∷ codes "medium" ∷ codes "high" ∷ codes "critical" ∷ []

abbrev pub status_blocked : Text
status_blocked = codes "blocked"

abbrev pub assignee_max_len : ℕ
assignee_max_len = 80

pub record Window : Type 0 where
  pub scope : Text
  pub from : Text
  pub to : Text

pub record Entry : Type 0 where
  pub key : Text
  pub title : Text
  pub kind : Text
  pub service : Text
  pub hosts : List Text
  pub severity : Text
  pub status : Text
  pub priority : Text
  pub blocked_reason : Text
  pub assignee : Text
  pub parent_task : Text
  pub deadline : Deadline
  pub knowledge : List Text
  pub resolution : Text
  pub detection : Text
  pub affected : List Window
  pub started_at : Text
  pub detected_at : Text
  pub mitigated_at : Text
  pub resolved_at : Text
  pub tags : List Text
  pub refs : List Text
  pub updated_at : Text
  pub body : Text

abbrev pub empty_entry : Entry
empty_entry = record {
  key = [];
  title = [];
  kind = kind_knowledge;
  service = [];
  hosts = [];
  severity = [];
  status = [];
  priority = [];
  blocked_reason = [];
  assignee = [];
  parent_task = [];
  deadline = default;
  knowledge = [];
  resolution = [];
  detection = [];
  affected = [];
  started_at = [];
  detected_at = [];
  mitigated_at = [];
  resolved_at = [];
  tags = [];
  refs = [];
  updated_at = [];
  body = [];
}

abbrev pub is_key_char : ℕ → Bool
is_key_char c = (leb 97 c && leb c 122) || (leb 48 c && leb c 57) || eqb c 45

unfoldable pub ends_with_dash : Text → Bool
ends_with_dash [] = false
ends_with_dash (c ∷ []) = eqb c 45
ends_with_dash (c ∷ d ∷ s) = ends_with_dash (d ∷ s)

unfoldable pub is_valid_key : Text → Bool
is_valid_key k =
    not (is_empty k)
    && leb (byte_len k) 100
    && all is_key_char k
    && not (starts_with (codes "-") k)
    && not (ends_with_dash k)

unfoldable pub is_incident : Entry → Bool
is_incident e = e.kind == kind_incident

unfoldable pub is_task : Entry → Bool
is_task e = e.kind == kind_task

unfoldable pub is_closed : Entry → Bool
is_closed e =
    (is_incident e && e.status == codes "resolved")
    || (is_task e && contains task_terminal_statuses e.status)

unfoldable pub is_live_task : Entry → Bool
is_live_task e = is_task e && contains task_live_statuses e.status

unfoldable pub open_followups : Entry → ℕ
open_followups e = length (retain (λ l. starts_with (codes "- [ ]") (trim_start l)) (lines e.body))
