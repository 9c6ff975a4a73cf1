-- ===== src/Deadline/Tests.antt =====
-- Runs of the deadline rules, and the theorems at concrete deadlines. One date and one date-time
-- can be read here.
use kyb.Common.{
  ◌+◌, ◌≤◌, true, false, not, ◌&&◌, ◌≡◌, ◌≢◌, ◌⊎◌, ◌↔◌, refl, Option, none, some, [], ◌∷◌, Text,
  codes, ◌==◌, if◌then◌else◌, trim, is_empty, ok, err, length, take, retain, any, text_cmp,
  eq_ignore_ascii_case,
}
use kyb.Common.Int.{ℤ, pos, negsuc, ◌≤ℤ◌, ◌<ℤ◌, ◌-ℤ◌, ltb_ℤ}
use kyb.Common.Sorts.{sort_by}
use kyb.Secrets.{find_secret, find_in}
use kyb.Deadline.{
  DateTime, Chrono, Deadline, default, DeadlineError, DeadlinePatch, parse_when, effective, window,
  validate, apply, is_absent, names_nothing,
}
use kyb.Deadline.Items.{
  Clock, Task, Item, Block, is_present, standing, item, surfaced, in_scope, urgency, sort, area,
  ordered, block,
}
use kyb.Deadline.Validity.{Acceptable, validate_iff}
use kyb.Deadline.Patching.{Follows, apply_lem}
use kyb.Deadline.Lateness.{item_standing}
use kyb.Deadline.Blocks.{block_lem}

abbrev launch : DateTime
launch = record { instant = pos 8_640_000; day = pos 100 }

one_date : Text → Option ℤ
one_date s = if s == codes "2026-03-14" then some (pos 100) else none

one_instant : Text → Option DateTime
one_instant s = if s == codes "2026-03-14T00:00:00Z" then some launch else none

abbrev chrono : Chrono
chrono = record { parse_date = one_date; parse_rfc3339 = one_instant; parse_minutes = λ s. none }

no_secrets : Text → Text → Option Text
no_secrets re s = none

abbrev due_launch : Deadline
due_launch = record default { due = codes "2026-03-14"; hard = true }

abbrev clock : Clock
clock = record { now = record { instant = pos 8_700_000; day = pos 101 }; today = pos 101 }

abbrev task : Task
task = record {
  key = codes "task-renew";
  title = codes "Renew";
  status = codes "open";
  assignee = [];
  tags = codes "TLS" ∷ [];
  deadline = due_launch;
}

abbrev late_item : Item
late_item = record {
  key = codes "task-renew";
  title = codes "Renew";
  status = codes "open";
  assignee = [];
  tags = codes "TLS" ∷ [];
  due = codes "2026-03-14";
  days_left = negsuc 0;
  overdue = true;
  hard = true;
  provisional = false;
  waits_on = [];
  remind_days = 30;
}

abbrev soon_item : Item
soon_item = record late_item { key = codes "task-a"; days_left = pos 3; overdue = false }

late_task : item chrono task clock ≡ some late_item
unfolding item effective parse_when one_date standing window trim ◌==◌ ◌-ℤ◌
late_task = refl

item_standing_example :
    (late_item.overdue ≡ true → late_item.days_left ≤ℤ pos 0)
    × (late_item.overdue ≡ false → pos 0 ≤ℤ late_item.days_left)
    × (late_item.days_left <ℤ pos 0 → late_item.overdue ≡ true)
    × (late_item.overdue ≡ true → surfaced late_item ≡ true)
    × (late_item.provisional ≡ true
        → (is_empty (trim task.deadline.due) ≡ true)
          × (late_item.due ≡ trim task.deadline.expected))
    × (late_item.provisional ≡ false → late_item.due ≡ trim task.deadline.due)
item_standing_example = item_standing chrono task clock late_item late_task

abbrev yesterday : Clock
yesterday = record clock { today = pos 90 }

far_away : (is_present yesterday && ltb_ℤ launch.instant yesterday.now.instant) ≡ false
unfolding ◌-ℤ◌
far_away = refl

validate_iff_example :
    (validate chrono no_secrets true due_launch ≡ ok tt)
    ↔ ((is_absent due_launch ≡ true) ⊎ ((true ≡ true) × Acceptable chrono no_secrets due_launch))
validate_iff_example = validate_iff chrono no_secrets true due_launch

refused_elsewhere : validate chrono no_secrets false due_launch ≡ err DeadlineError.task_only
unfolding validate
refused_elsewhere = refl

accepted : validate chrono no_secrets true due_launch ≡ ok tt
unfolding validate parse_when one_date find_secret find_in no_secrets trim ◌==◌
accepted = refl

abbrev untouched : DeadlinePatch
untouched = record { due = none; hard = none; remind_days = none; waits_on = none; expected = none }

abbrev clearing : DeadlinePatch
clearing = record untouched { due = some none }

clearing_clears : apply clearing due_launch ≡ default
unfolding apply trim
clearing_clears = refl

apply_example :
    Follows clearing due_launch (apply clearing due_launch)
    × (apply clearing (apply clearing due_launch) ≡ apply clearing due_launch)
apply_example = apply_lem clearing due_launch

untouched_names : names_nothing untouched ≡ true
unfolding names_nothing
untouched_names = refl

due_launch_dated : trim due_launch.due ≢ []
unfolding trim
due_launch_dated e = cc

abbrev both : Block
both = record {
  today = pos 101;
  count = 2;
  overdue = 1;
  more = 0;
  items = late_item ∷ soon_item ∷ [];
}

block-both : block (soon_item ∷ late_item ∷ []) clock (codes "tls" ∷ []) ≡ some both
unfolding block ordered sort area in_scope urgency surfaced sort_by text_cmp ◌==◌
    eq_ignore_ascii_case
block-both = refl

block_example :
    (both.items ≡ take 5 (ordered (soon_item ∷ late_item ∷ []) (codes "tls" ∷ [])))
    × (both.count ≡ length (retain surfaced (soon_item ∷ late_item ∷ [])))
    × (both.overdue ≡ length (retain (λ i. i.overdue) (soon_item ∷ late_item ∷ [])))
    × (length both.items + both.more ≡ both.count)
    × (length both.items ≤ 5)
    × (any (λ i. not i.overdue) both.items ≡ true
        → length (retain (λ i. i.overdue) both.items) ≡ both.overdue)
block_example = block_lem (soon_item ∷ late_item ∷ []) clock (codes "tls" ∷ []) both block-both
