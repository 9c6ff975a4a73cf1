-- ===== src/Deadline.antt =====
-- deadline.rs: due dates on tasks, and what the server says about them.
-- Dates are read by the crate chrono, which is the parameter `Chrono`: a calendar day is its
-- number, and of a date-time the code asks for its instant and for the day in its own zone.
pub mod Items
pub mod Validity
pub mod Patching
pub mod Lateness
pub mod Blocks
mod Tests
use kyb.Common.{
  ℕ, Bool, true, false, not, ◌&&◌, ◌||◌, Option, none, some, List, [], ◌∷◌, Text, codes, ◌==◌, trim,
  is_empty, if◌then◌else◌, ltb, Result, ok, err, ensure, ◌>>=◌, ◌>>◌, or_empty,
}
use kyb.Common.Int.{ℤ}
use kyb.Secrets.{find_secret}

abbrev pub default_remind_days : ℕ
default_remind_days = 14

abbrev pub remind_days_hard : ℕ
remind_days_hard = 30

abbrev pub remind_days_max : ℕ
remind_days_max = 366

pub record DateTime : Type 0 where
  pub instant : ℤ
  pub day : ℤ

pub record Chrono : Type 0 where
  pub parse_date : Text → Option ℤ
  pub parse_rfc3339 : Text → Option DateTime
  pub parse_minutes : Text → Option DateTime

pub data When : Type 0 where
  on : ℤ → When
  at : DateTime → When

pub record Deadline : Type 0 where
  pub due : Text
  pub hard : Bool
  pub remind_days : Option ℕ
  pub waits_on : Text
  pub expected : Text

abbrev pub default : Deadline
default = record { due = []; hard = false; remind_days = none; waits_on = []; expected = [] }

abbrev pub is_some {ℓ} : {A : Type ℓ} → Option A → Bool
is_some none = false
is_some (some a) = true

-- `*self == Deadline::default()`.
abbrev pub is_absent : Deadline → Bool
is_absent d =
    is_empty d.due
    && not d.hard
    && not (is_some d.remind_days)
    && is_empty d.waits_on
    && is_empty d.expected

abbrev map_at : Option DateTime → Option When
map_at none = none
map_at (some t) = some (at t)

module _ (chrono : Chrono) where
  unfoldable pub parse_when : Text → Option When
  parse_when raw =
      let s = trim raw in
      elim (chrono.parse_date s) [
        | some d ↦ some (on d)
        | none ↦ elim (chrono.parse_rfc3339 s) [
          | some t ↦ some (at t)
          | none ↦ map_at (chrono.parse_minutes s)
        ]
      ]

  abbrev pub readable : Text → Bool
  readable s = is_empty (trim s) || is_some (parse_when s)

  abbrev dated_as : Text → Bool → Option When → Option (When × Text × Bool)
  dated_as written provisional none = none
  dated_as written provisional (some w) = some (w, written, provisional)

  unfoldable pub effective : Deadline → Option (When × Text × Bool)
  effective d =
      if not (is_empty (trim d.due))
      then dated_as (trim d.due) false (parse_when (trim d.due))
      else if not (is_empty (trim d.expected))
      then dated_as (trim d.expected) true (parse_when (trim d.expected))
      else none

unfoldable pub window : Deadline → ℕ
window d = elim d.remind_days [
  | some days ↦ days
  | none ↦ if d.hard then remind_days_hard else default_remind_days
]

pub data DeadlineError : Type 0 where
  task_only bad_due bad_expected undated too_far blank_event secret_event : DeadlineError

-- `validate`, with what finds a secret in a text.
module _ (chrono : Chrono) (regex_find : Text → Text → Option Text) where
  unfoldable pub validate : Bool → Deadline → Result DeadlineError (Unit {0})
  validate is_task d =
      let dated = not (is_empty (trim d.due)) || not (is_empty (trim d.expected)) in
      let described = d.hard || is_some d.remind_days || not (is_empty (trim d.waits_on)) in
      let far : Bool = elim d.remind_days [ none ↦ false | some days ↦ ltb remind_days_max days ] in
      let checks : Result DeadlineError (Unit {0}) = (do
        ensure is_task task_only
        ensure (readable chrono d.due) bad_due
        ensure (readable chrono d.expected) bad_expected
        ensure (dated || not described) undated
        ensure (not far) too_far
        ensure (is_empty d.waits_on || not (is_empty (trim d.waits_on))) blank_event
        ensure (not (is_some (find_secret regex_find d.waits_on))) secret_event) in
      if is_absent d then ok tt else checks

-- A field of a request: absent, `null`, or a value.
pub record DeadlinePatch : Type 0 where
  pub due : Option (Option Text)
  pub hard : Option (Option Bool)
  pub remind_days : Option (Option ℕ)
  pub waits_on : Option (Option Text)
  pub expected : Option (Option Text)

unfoldable pub names_nothing : DeadlinePatch → Bool
names_nothing p =
    not (is_some p.due)
    && not (is_some p.hard)
    && not (is_some p.remind_days)
    && not (is_some p.waits_on)
    && not (is_some p.expected)

abbrev pub set_or_keep {ℓ κ} : {A : Type ℓ} {B : Type κ} → Option A → (A → B) → B → B
set_or_keep none f old = old
set_or_keep (some a) f old = f a

abbrev pub or_false : Option Bool → Bool
or_false none = false
or_false (some b) = b

-- The fields as the request sets them.
abbrev pub patched : DeadlinePatch → Deadline → Deadline
patched p d = record {
  due = set_or_keep p.due (λ v. trim (or_empty v)) d.due;
  hard = set_or_keep p.hard (λ v. or_false v) d.hard;
  remind_days = set_or_keep p.remind_days (λ v. v) d.remind_days;
  waits_on = set_or_keep p.waits_on (λ v. or_empty v) d.waits_on;
  expected = set_or_keep p.expected (λ v. trim (or_empty v)) d.expected;
}

-- `apply`: a deadline that is left without a date loses what described it, unless the request
-- names it.
unfoldable pub apply : DeadlinePatch → Deadline → Deadline
apply p d =
    let e = patched p d in
    if is_empty (trim e.due) && is_empty (trim e.expected)
    then record e {
      hard = if is_some p.hard then e.hard else false;
      remind_days = if is_some p.remind_days then e.remind_days else none;
      waits_on = if is_some p.waits_on then e.waits_on else [];
    }
    else e
