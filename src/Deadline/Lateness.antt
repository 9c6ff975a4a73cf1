-- ===== src/Deadline/Lateness.antt =====
-- When a deadline is late, and how many days are left.
use kyb.Common.{
  Bool, true, false, ◌&&◌, ◌||◌, ◌≡◌, refl, sym, ◌∙◌, some, Text, arith, Bool-cases, inl, inr,
  Option-cases, is_empty, trim,
}
use kyb.Common.Int.{ℤ, pos, ◌-ℤ◌, ltb_ℤ, min_ℤ, ◌≤ℤ◌, ◌<ℤ◌, -ℤ_parts}
use kyb.Deadline.{DateTime, Chrono, When, on, at, Deadline, effective}
use kyb.Deadline.Items.{Clock, Task, Item, is_present, standing, item, surfaced}

-- Late by the calendar exactly if days are missing.
late_days : (a b : ℤ) → (ltb_ℤ a b ≡ true → a -ℤ b <ℤ pos 0) × (ltb_ℤ a b ≡ false → pos 0 ≤ℤ a -ℤ b)
late_days a b = (λ h. ground (arith, -ℤ_parts a b), λ h. ground (arith, -ℤ_parts a b))

min_nonpos : (d : ℤ) → min_ℤ d (pos 0) ≤ℤ pos 0
min_nonpos d = ground arith

min_of_neg : (d : ℤ) → d <ℤ pos 0 → min_ℤ d (pos 0) ≡ d
min_of_neg d h = ground arith

or-false : (a b : Bool) → (a || b) ≡ false → a ≡ false
or-false true b h = ground arith
or-false false b h = refl

standing_sign :
    (clock : Clock) (w : When)
    → ((standing clock w).1 ≡ true → (standing clock w).0 ≤ℤ pos 0)
      × ((standing clock w).1 ≡ false → pos 0 ≤ℤ (standing clock w).0)
unfolding standing
standing_sign clock (on day) =
    (λ h. ground (arith, (late_days day clock.today).0 h), λ h. (late_days day clock.today).1 h)
standing_sign clock (at t) = (
  λ h. rw h (min_nonpos (t.day -ℤ clock.today)),
  λ h. rw h ((late_days t.day clock.today).1 (or-false _ _ h)),
)

-- A date-time counts by its own day exactly as the bare date does, unless its instant has passed
-- and the caller's date is the present one somewhere on Earth.
pub standing_calendar :
    (clock : Clock) (t : DateTime)
    → (is_present clock && ltb_ℤ t.instant clock.now.instant) ≡ false
    → standing clock (at t) ≡ standing clock (on t.day)
unfolding standing
standing_calendar clock t h = elim (Bool-cases (ltb_ℤ t.day clock.today)) [
  | inl e ↦ rw (e, min_of_neg (t.day -ℤ clock.today) ((late_days t.day clock.today).0 e))
  | inr e ↦ rw (e, h)
]

effective_lem :
    (chrono : Chrono) (d : Deadline) (w : When) (written : Text) (provisional : Bool)
    → effective chrono d ≡ some (w, written, provisional)
    → (provisional ≡ true → (is_empty (trim d.due) ≡ true) × (written ≡ trim d.expected))
      × (provisional ≡ false → written ≡ trim d.due)
unfolding effective
effective_lem chrono d w written provisional h =
    (λ e. (ground arith, ground arith), λ e. ground arith)

record Shown (chrono : Chrono) (task : Task) (clock : Clock) (i : Item) : Type 0 where
  pub when : When
  pub read : effective chrono task.deadline ≡ some (when, i.due, i.provisional)
  pub days : i.days_left ≡ (standing clock when).0
  pub late : i.overdue ≡ (standing clock when).1

item-Shown :
    (chrono : Chrono) (task : Task) (clock : Clock) (i : Item)
    → item chrono task clock ≡ some i
    → Shown chrono task clock i
unfolding item
item-Shown chrono task clock i h = elim (Option-cases (effective chrono task.deadline)) [
  | inl e ↦ ground arith
  | inr ((w, written, provisional), e) ↦ record {
    when = w;
    read = ground arith;
    days = ground arith;
    late = ground arith;
  }
]

-- What is late has no days left, and what is not late is not in the past; what has negative days
-- left is late, and what is late is surfaced. The date that is shown is the due date where one is
-- written, and is marked provisional only where none is.
pub item_standing :
    (chrono : Chrono) (task : Task) (clock : Clock) (i : Item)
    → item chrono task clock ≡ some i
    → (i.overdue ≡ true → i.days_left ≤ℤ pos 0)
      × (i.overdue ≡ false → pos 0 ≤ℤ i.days_left)
      × (i.days_left <ℤ pos 0 → i.overdue ≡ true)
      × (i.overdue ≡ true → surfaced i ≡ true)
      × (i.provisional ≡ true
          → (is_empty (trim task.deadline.due) ≡ true) × (i.due ≡ trim task.deadline.expected))
      × (i.provisional ≡ false → i.due ≡ trim task.deadline.due)
unfolding surfaced
item_standing chrono task clock i h =
    let s = item-Shown chrono task clock i h in
    let sign = standing_sign clock s.when in
    let shown = effective_lem chrono task.deadline s.when i.due i.provisional s.read in
    let ahead : i.overdue ≡ false → pos 0 ≤ℤ i.days_left =
      λ e. rw s.days (sign.1 (sym s.late ∙ e)) in
    (
      λ e. rw s.days (sign.0 (sym s.late ∙ e)),
      ahead,
      λ n. elim (Bool-cases i.overdue) [
        | inl e ↦ e
        | inr e ↦ let p = ahead e in absurd (omega arith)
      ],
      λ e. ground arith,
      shown.0,
      shown.1,
    )
