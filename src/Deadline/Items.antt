-- ===== src/Deadline/Items.antt =====
-- deadline.rs: one deadline as of a clock, its order and the block of a response.
use kyb.Common.{
  ℕ, ◌-◌, Bool, not, ◌&&◌, ◌||◌, Option, none, some, List, [], Text, is_nil, if◌then◌else◌, leb,
  length, take, all, any, retain, Ordering, eq_ignore_ascii_case, text_cmp,
}
use kyb.Common.Int.{ℤ, pos, ◌-ℤ◌, ltb_ℤ, leb_ℤ, cmp_ℤ, min_ℤ, abs}
use kyb.Common.Orders.{then_cmp, bool_cmp}
use kyb.Common.Sorts.{sort_by}
use kyb.Deadline.{DateTime, Chrono, When, on, at, Deadline, effective, window}

abbrev pub block_cap : ℕ
block_cap = 5

abbrev pub this_week_days : ℕ
this_week_days = 7

-- The present moment, and the caller's date at it.
pub record Clock : Type 0 where
  pub now : DateTime
  pub today : ℤ

pub record Task : Type 0 where
  pub key : Text
  pub title : Text
  pub status : Text
  pub assignee : Text
  pub tags : List Text
  pub deadline : Deadline

pub record Item : Type 0 where
  pub key : Text
  pub title : Text
  pub status : Text
  pub assignee : Text
  pub tags : List Text
  pub due : Text
  pub days_left : ℤ
  pub overdue : Bool
  pub hard : Bool
  pub provisional : Bool
  pub waits_on : Text
  pub remind_days : ℕ

unfoldable pub surfaced : Item → Bool
surfaced i = i.overdue || leb_ℤ i.days_left (pos i.remind_days)

pub data Bucket : Type 0 where
  overdue this_week later : Bucket

unfoldable pub bucket : Item → Bucket
bucket i =
    if i.overdue
    then overdue
    else if leb_ℤ i.days_left (pos this_week_days)
    then this_week
    else later

unfoldable pub in_scope : List Text → Item → Bool
in_scope scope i = all (λ s. any (λ t. eq_ignore_ascii_case t s) i.tags) scope

abbrev pub is_present : Clock → Bool
is_present clock = leb (abs (clock.today -ℤ clock.now.day)) 1

-- Days left and lateness.
unfoldable pub standing : Clock → When → ℤ × Bool
standing clock (on day) = (day -ℤ clock.today, ltb_ℤ day clock.today)
standing clock (at t) =
    let days = t.day -ℤ clock.today in
    let late = ltb_ℤ t.day clock.today || (is_present clock && ltb_ℤ t.instant clock.now.instant) in
    (if late then min_ℤ days (pos 0) else days, late)

unfoldable pub item : Chrono → Task → Clock → Option Item
item chrono task clock = elim (effective chrono task.deadline) [
  | none ↦ none
  | some (when, written, provisional) ↦ some (record {
    key = task.key;
    title = task.title;
    status = task.status;
    assignee = task.assignee;
    tags = task.tags;
    due = written;
    days_left = (standing clock when).0;
    overdue = (standing clock when).1;
    hard = task.deadline.hard;
    provisional = provisional;
    waits_on = if provisional then task.deadline.waits_on else [];
    remind_days = window task.deadline;
  })
]

-- The comparator of `sort`.
unfoldable pub urgency : Item → Item → Ordering
urgency a b =
    then_cmp
      (then_cmp (then_cmp (bool_cmp b.overdue a.overdue) (bool_cmp b.hard a.hard))
        (cmp_ℤ a.days_left b.days_left))
      (text_cmp a.key b.key)

unfoldable pub sort : List Item → List Item
sort items = sort_by urgency items

-- The key of `sort_by_key` in `block`: the pair of (not overdue, not in scope).
unfoldable pub area : List Text → Item → Item → Ordering
area scope a b =
    then_cmp (bool_cmp (not a.overdue) (not b.overdue))
      (bool_cmp (not (in_scope scope a)) (not (in_scope scope b)))

pub record Block : Type 0 where
  pub today : ℤ
  pub count : ℕ
  pub overdue : ℕ
  pub more : ℕ
  pub items : List Item

-- The whole list, before it is cut.
unfoldable pub ordered : List Item → List Text → List Item
ordered items scope =
    let kept = sort (retain surfaced items) in
    if is_nil scope then kept else sort_by (area scope) kept

unfoldable pub block : List Item → Clock → List Text → Option Block
block items clock scope =
    let all_items = ordered items scope in
    if is_nil (retain surfaced items)
    then none
    else some (record {
      today = clock.today;
      count = length all_items;
      overdue = length (retain (λ i. i.overdue) all_items);
      more = length all_items - length (take block_cap all_items);
      items = take block_cap all_items;
    })
