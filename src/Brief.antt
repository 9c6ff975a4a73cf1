-- ===== src/Brief.antt =====
-- brief.rs: the rules of a brief: who is in scope, the ranks and orders of the rows, and sections.
pub mod Sections
pub mod Qualifying
pub mod Orders
mod Tests
use kyb.Common.{
  ℕ, suc, ◌-◌, compare, Ordering, Bool, true, false, ◌&&◌, ◌||◌, Option, none, some, List, [], ◌∷◌,
  Text, codes, ◌==◌, trim, length, take, all, any, eq_ignore_ascii_case, text_cmp, if◌then◌else◌,
}
use kyb.Common.Int.{ℤ, pos_part}
use kyb.Common.Orders.{then_cmp}
use kyb.Common.Sorts.{sort_by}
use kyb.Deadline.{DateTime, Chrono}

abbrev pub cap_deadlines : ℕ
cap_deadlines = 5

abbrev pub cap_incidents : ℕ
cap_incidents = 5

abbrev pub cap_work : ℕ
cap_work = 7

abbrev pub max_limit : ℕ
max_limit = 50

pub record Scope : Type 0 where
  pub tags : List Text
  pub service : Option Text

abbrev pub has_tag : List Text → Text → Bool
has_tag tags want = any (λ t. eq_ignore_ascii_case t want) tags

abbrev pub is_none_or {ℓ} : {A : Type ℓ} → Option A → (A → Bool) → Bool
is_none_or none p = true
is_none_or (some a) p = p a

unfoldable pub admits : Scope → List Text → Text → Bool
admits scope tags service =
    all (has_tag tags) scope.tags
    && is_none_or scope.service (λ s. eq_ignore_ascii_case service s || has_tag tags s)

pub record Section (A : Type 0) : Type 0 where
  pub count : ℕ
  pub more : ℕ
  pub items : List A

unfoldable pub section : {A : Type 0} → List A → ℕ → Section A
section rows cap =
    let shown = take cap rows in
    record { count = length rows; more = length rows - length shown; items = shown }

-- The position in a list, or its length.
unfoldable pub rank : List Text → Text → ℕ
rank [] value = 0
rank (x ∷ order) value = let later = rank order value in if x == value then 0 else suc later

abbrev pub levels : List Text
levels = codes "critical" ∷ codes "high" ∷ codes "medium" ∷ codes "low" ∷ []

unfoldable pub severity_rank : Text → ℕ
severity_rank severity = rank levels severity

unfoldable pub priority_rank : Text → ℕ
priority_rank priority = rank levels priority

-- `days_between now t` is chrono's `(now - t).num_days()`; `max(0)` of it is its positive part.
unfoldable pub age_days : Chrono → (DateTime → DateTime → ℤ) → Text → DateTime → Option ℕ
age_days chrono days_between since now = elim (chrono.parse_rfc3339 (trim since)) [
  | none ↦ none
  | some t ↦ some (pos_part (days_between now t))
]

pub record IncidentRow : Type 0 where
  pub key : Text
  pub title : Text
  pub service : Text
  pub severity : Text
  pub status : Text
  pub age_days : Option ℕ

-- The order of `Option<i64>`: nothing is before everything.
abbrev pub option_rank : Option ℕ → ℕ
option_rank none = 0
option_rank (some n) = suc n

abbrev pub incident_statuses : List Text
incident_statuses = codes "open" ∷ codes "mitigated" ∷ []

unfoldable pub incident_order : IncidentRow → IncidentRow → Ordering
incident_order a b =
    then_cmp
      (then_cmp
        (then_cmp (compare (severity_rank a.severity) (severity_rank b.severity))
          (compare (rank incident_statuses a.status) (rank incident_statuses b.status)))
        (compare (option_rank b.age_days) (option_rank a.age_days)))
      (text_cmp a.key b.key)

unfoldable pub sort_incidents : List IncidentRow → List IncidentRow
sort_incidents rows = sort_by incident_order rows

pub record WorkRow : Type 0 where
  pub key : Text
  pub title : Text
  pub status : Text
  pub priority : Text
  pub assignee : Text
  pub blocked_reason : Text

unfoldable pub is_active_work : Text → Text → Bool
is_active_work status priority =
    (status == codes "in_progress" || status == codes "blocked")
    || (status == codes "open" && (priority == codes "high" || priority == codes "critical"))

abbrev pub work_statuses : List Text
work_statuses = codes "in_progress" ∷ codes "blocked" ∷ codes "open" ∷ []

unfoldable pub work_order : WorkRow → WorkRow → Ordering
work_order a b =
    then_cmp
      (then_cmp (compare (rank work_statuses a.status) (rank work_statuses b.status))
        (compare (priority_rank a.priority) (priority_rank b.priority)))
      (text_cmp a.key b.key)

unfoldable pub sort_work : List WorkRow → List WorkRow
sort_work rows = sort_by work_order rows

-- A row without who wrote it.
pub record ChangeRow : Type 0 where
  pub key : Text
  pub title : Text
  pub at : Text

unfoldable pub change_order : ChangeRow → ChangeRow → Ordering
change_order a b = then_cmp (text_cmp b.at a.at) (text_cmp a.key b.key)

unfoldable pub sort_changes : List ChangeRow → List ChangeRow
sort_changes rows = sort_by change_order rows
