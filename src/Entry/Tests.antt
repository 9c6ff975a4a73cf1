-- ===== src/Entry/Tests.antt =====
-- Entries that are accepted and refused, and the theorems at concrete entries.
use kyb.Common.{
  true, false, not, ◌≡◌, ◌≢◌, ◌↔◌, refl, Option, none, [], Text, codes, ◌==◌, trim, trim_start,
  trim_end, is_whitespace, byte_len, starts_with, contains, ok, err,
}
use kyb.Secrets.{find_secret, find_in}
use kyb.Deadline.{Chrono}
use kyb.Deadline
use kyb.Entry.{
  Entry, empty_entry, kind_task, task_prefix, incident_prefix, is_valid_key, ends_with_dash,
  is_task, is_incident, is_closed, is_live_task, status_blocked,
}
use kyb.Entry.Validation.{validate, check_kind, check_task, no_resolution, is_blank}
use kyb.Entry.Lifecycle.{validate-prefix, validate-lifecycle}
use kyb.Entry.Comparing.{same_content, compared, same_content_iff}

abbrev chrono : Chrono
chrono = record { parse_date = λ s. none; parse_rfc3339 = λ s. none; parse_minutes = λ s. none }

no_secrets : Text → Text → Option Text
no_secrets re s = none

abbrev fix : Entry
fix = record empty_entry {
  key = codes "task-a";
  title = codes "a";
  kind = kind_task;
  status = codes "blocked";
  blocked_reason = codes "b";
}

fix-accepted : validate chrono no_secrets fix ≡ ok tt
unfolding validate check_kind check_task is_valid_key ends_with_dash is_task is_closed is_incident
    ◌==◌ trim trim_start trim_end is_whitespace byte_len starts_with contains find_secret find_in
    no_secrets Deadline.validate
fix-accepted = refl

-- A task cannot be closed without a resolution.
fix-unresolved :
    validate chrono no_secrets (record fix { status = codes "done"; blocked_reason = [] })
    ≡ err no_resolution
unfolding validate check_kind check_task is_valid_key ends_with_dash is_task is_closed is_incident
    ◌==◌ trim trim_start trim_end is_whitespace byte_len starts_with contains
fix-unresolved = refl

prefix_example :
    (is_valid_key fix.key ≡ true)
    × (starts_with task_prefix fix.key ≡ is_task fix)
    × (starts_with incident_prefix fix.key ≡ is_incident fix)
prefix_example = validate-prefix chrono no_secrets fix fix-accepted

lifecycle_example :
    (is_task fix ≡ true → is_live_task fix ≡ not (is_closed fix))
    × (is_task fix ≡ true → fix.parent_task ≢ fix.key)
    × (is_closed fix ≡ true → is_blank fix.resolution ≡ false)
    × (is_blank fix.blocked_reason ≡ false → (is_task fix ≡ true) × (fix.status ≡ status_blocked))
lifecycle_example = validate-lifecycle chrono no_secrets fix fix-accepted

abbrev touched : Entry
touched = record fix { updated_at = codes "2026-03-14"; body = codes "\n" }

same_content_example : (same_content fix touched ≡ true) ↔ (compared fix ≡ compared touched)
same_content_example = same_content_iff fix touched
