-- ===== src/Deadline/Validity.antt =====
-- What `validate` accepts.
use kyb.Common.{
  ℕ, ◌≤◌, Bool, true, false, not, ◌||◌, ◌≡◌, ◌≢◌, ◌⊎◌, ◌↔◌, inl, inr, Option, none, some, Text,
  arith, Bool-cases, Option-cases, is_empty, trim, [], ok,
}
use kyb.Secrets.{find_secret}
use kyb.Deadline.{Chrono, Deadline, is_absent, parse_when, validate, readable, remind_days_max}

-- A deadline that a task may carry, apart from the order in which the code asks.
pub record Acceptable (chrono : Chrono) (regex_find : Text → Text → Option Text) (d : Deadline)
    : Type 0 where
  pub due_readable : (trim d.due ≡ []) ⊎ (parse_when chrono d.due ≢ none)
  pub expected_readable : (trim d.expected ≡ []) ⊎ (parse_when chrono d.expected ≢ none)
  pub dated :
      (trim d.due ≡ [])
      → (trim d.expected ≡ [])
      → (d.hard ≡ false) × (d.remind_days ≡ none) × (trim d.waits_on ≡ [])
  pub near : (days : ℕ) → d.remind_days ≡ some days → days ≤ remind_days_max
  pub event : trim d.waits_on ≡ [] → d.waits_on ≡ []
  pub no_secret : find_secret regex_find d.waits_on ≡ none

module _ (chrono : Chrono) (regex_find : Text → Text → Option Text) where
  sound :
      (is_task : Bool) (d : Deadline)
      → validate chrono regex_find is_task d ≡ ok tt
      → (is_absent d ≡ true) ⊎ ((is_task ≡ true) × Acceptable chrono regex_find d)
  unfolding validate
  sound is_task d h = elim (Bool-cases (is_absent d)) [
    | inl e ↦ inl e
    | inr e ↦ inr (
      ground arith,
      record {
        due_readable = ground arith;
        expected_readable = ground arith;
        dated = λ u v. ground arith;
        near = λ days r. ground arith;
        event = λ w. ground arith;
        no_secret = ground arith;
      },
    )
  ]

  complete :
      (is_task : Bool) (d : Deadline)
      → (is_absent d ≡ true) ⊎ ((is_task ≡ true) × Acceptable chrono regex_find d)
      → validate chrono regex_find is_task d ≡ ok tt
  unfolding validate
  complete is_task d (inl e) = ground arith
  complete is_task d (inr (t, a)) =
      let due_ok : readable chrono d.due ≡ true = ground (arith, a.due_readable) in
      let expected_ok : readable chrono d.expected ≡ true = ground (arith, a.expected_readable) in
      let event_ok : (is_empty d.waits_on || not (is_empty (trim d.waits_on))) ≡ true =
        ground (arith, a.event) in
      let near_ok : (days : ℕ) → d.remind_days ≡ some days → days ≤ remind_days_max = a.near in
      elim (Option-cases d.remind_days) [
        | inl e ↦ rw (t, due_ok, expected_ok, e, event_ok, a.no_secret) (ground (arith, a.dated))
        | inr (days, e) ↦
            ground (arith, due_ok, expected_ok, event_ok, a.no_secret, a.dated, near_ok days e)
      ]

-- A deadline is accepted exactly if it is empty, or the entry is a task and the deadline is
-- acceptable: readable dates, at least one of them if anything else is set, a reminder of at most
-- 366 days, an event that is not blank and holds no secret.
pub validate_iff :
    (chrono : Chrono) (regex_find : Text → Text → Option Text) (is_task : Bool) (d : Deadline)
    → (validate chrono regex_find is_task d ≡ ok tt)
      ↔ ((is_absent d ≡ true) ⊎ ((is_task ≡ true) × Acceptable chrono regex_find d))
validate_iff chrono regex_find is_task d =
    (sound chrono regex_find is_task d, complete chrono regex_find is_task d)
