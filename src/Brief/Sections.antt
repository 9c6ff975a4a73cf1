-- ===== src/Brief/Sections.antt =====
-- brief_api.rs: how `brief` makes the sections of incidents, of work and of deadlines from what the
-- index has. `is_archived` asks the store, and is an argument.
use kyb.Common.{
  ℕ, ◌-◌, Bool, not, ◌&&◌, ◌||◌, Option, none, some, List, [], ◌∷◌, map, Text, codes, ◌==◌,
  is_empty, length, take, find, retain, contains, leb, if◌then◌else◌,
}
use kyb.Common.Int.{ℤ}
use kyb.Deadline.{DateTime, Chrono, Deadline}
use kyb.Deadline.Items.{Clock, Item, Block, item, block}
use kyb.Entry.{task_live_statuses}
use kyb.Brief.{
  Scope, admits, Section, section, age_days, IncidentRow, sort_incidents, WorkRow, is_active_work,
  sort_work, cap_incidents, cap_work, cap_deadlines, max_limit,
}

-- index.rs: what a brief reads of a hit.
pub record Hit : Type 0 where
  pub key : Text
  pub title : Text
  pub tags : List Text
  pub service : Text
  pub severity : Text
  pub status : Text
  pub priority : Text
  pub blocked_reason : Text
  pub assignee : Text
  pub deadline : Deadline
  pub started_at : Text
  pub detected_at : Text
  pub committed_at : Text

-- `limit`: what is written must be a number from 1 to 50; `parse` is `str::parse::<usize>`.
abbrev pub in_limit : Option ℕ → Option ℕ
in_limit none = none
in_limit (some n) = if leb 1 n && leb n max_limit then some n else none

abbrev pub cap : Option ℕ → ℕ → ℕ
cap none default = default
cap (some n) default = n

module _ (chrono : Chrono) (days_between : DateTime → DateTime → ℤ) (now : DateTime) where
  abbrev pub age : Option Text → Option ℕ
  age none = none
  age (some s) = age_days chrono days_between s now

  unfoldable pub incident_row : Hit → IncidentRow
  incident_row h = record {
    key = h.key;
    title = h.title;
    service = h.service;
    severity = h.severity;
    status = h.status;
    age_days =
        age (find (λ s. not (is_empty s)) (h.started_at ∷ h.detected_at ∷ h.committed_at ∷ []));
  }

unfoldable pub work_row : Hit → WorkRow
work_row h = record {
  key = h.key;
  title = h.title;
  status = h.status;
  priority = h.priority;
  assignee = h.assignee;
  blocked_reason = h.blocked_reason;
}

abbrev pub push_item : Option Item → List Item → List Item
push_item none items = items
push_item (some i) items = i ∷ items

unfoldable pub items_of : Chrono → Clock → List Hit → List Item
items_of chrono clock [] = []
items_of chrono clock (h ∷ hits) =
    push_item
      (item chrono
        (record {
          key = h.key;
          title = h.title;
          status = h.status;
          assignee = h.assignee;
          tags = h.tags;
          deadline = h.deadline;
        })
        clock)
      (items_of chrono clock hits)

-- The live tasks in scope, of which the work and the deadlines both come.
unfoldable pub live_tasks : Scope → List Hit → List Hit
live_tasks scope tasks =
    retain (λ h. contains task_live_statuses h.status && admits scope h.tags h.service) tasks

module _ (scope : Scope) (is_archived : Text → Bool) where
  unfoldable pub is_open : Hit → Bool
  is_open h =
      ((h.status == codes "open" || h.status == codes "mitigated") && admits scope h.tags h.service)
      && not (is_archived h.key)

  unfoldable pub incidents_section :
      Chrono → (DateTime → DateTime → ℤ) → DateTime → List Hit → Option ℕ → Section IncidentRow
  incidents_section chrono days_between now hits limit =
      section (sort_incidents (map (incident_row chrono days_between now) (retain is_open hits)))
        (cap limit cap_incidents)

  abbrev pub is_work : Hit → Bool
  is_work h = is_active_work h.status h.priority && not (is_archived h.key)

  unfoldable pub work_section : List Hit → Option ℕ → Section WorkRow
  work_section tasks limit =
      section (sort_work (map work_row (retain is_work (live_tasks scope tasks))))
        (cap limit cap_work)

-- The section of deadlines: the block, cut again.
pub record Deadlines : Type 0 where
  pub count : ℕ
  pub overdue : ℕ
  pub more : ℕ
  pub items : List Item

abbrev pub cut : ℕ → Option Block → Deadlines
cut want none = record { count = 0; overdue = 0; more = 0; items = [] }
cut want (some b) =
    let shown = take want b.items in
    record { count = b.count; overdue = b.overdue; more = b.count - length shown; items = shown }

unfoldable pub deadlines_section :
    Scope → (Text → Bool) → Chrono → Clock → List Hit → Option ℕ → Deadlines
deadlines_section scope is_archived chrono clock tasks limit =
    let items =
      retain (λ i. not (is_archived i.key)) (items_of chrono clock (live_tasks scope tasks)) in
    cut (cap limit cap_deadlines) (block items clock [])
