-- ===== src/Deadline/Patching.antt =====
-- What a request changes of a stored deadline.
use kyb.Common.{
  Bool, true, false, not, ◌&&◌, ◌||◌, ◌≡◌, ◌≢◌, ap, ◌∙◌, ◌⊎◌, inl, inr, Option, none, Text, arith,
  some, refl, [], Bool-cases, is_empty, trim, err, if◌then◌else◌,
}
use kyb.Deadline.{
  Chrono, Deadline, DeadlinePatch, undated, is_some, apply, patched, names_nothing, validate,
  set_or_keep, or_empty, or_false,
}

abbrev is_undated : Deadline → Bool
is_undated d = is_empty (trim d.due) && is_empty (trim d.expected)

abbrev cleared : DeadlinePatch → Deadline → Deadline
cleared p e = record e {
  hard = if is_some p.hard then e.hard else false;
  remind_days = if is_some p.remind_days then e.remind_days else none;
  waits_on = if is_some p.waits_on then e.waits_on else [];
}

patched_idem : (p : DeadlinePatch) (d : Deadline) → patched p (patched p d) ≡ patched p d
patched_idem p d = ground arith

patched-cleared :
    (p : DeadlinePatch) (d : Deadline)
    → patched p (cleared p (patched p d)) ≡ cleared p (patched p d)
patched-cleared p d = ground arith

apply_dated :
    (p : DeadlinePatch) (d : Deadline) → is_undated (patched p d) ≡ false → apply p d ≡ patched p d
unfolding apply
apply_dated p d h = rw h

apply_undated :
    (p : DeadlinePatch) (d : Deadline)
    → is_undated (patched p d) ≡ true
    → apply p d ≡ cleared p (patched p d)
unfolding apply
apply_undated p d h = rw h

cleared_idem : (p : DeadlinePatch) (e : Deadline) → cleared p (cleared p e) ≡ cleared p e
cleared_idem p e = ground arith

-- Applying a request twice is applying it once.
apply_idem : (p : DeadlinePatch) (d : Deadline) → apply p (apply p d) ≡ apply p d
apply_idem p d = elim (Bool-cases (is_undated (patched p d))) [
  | inl e ↦ rw (apply_undated p d e) (
      apply_undated p (cleared p (patched p d)) (ap is_undated (patched-cleared p d) ∙ e)
      ∙ ap (cleared p) (patched-cleared p d)
      ∙ cleared_idem p (patched p d))
  | inr e ↦
      rw (apply_dated p d e)
        (apply_dated p (patched p d) (ap is_undated (patched_idem p d) ∙ e) ∙ patched_idem p d)
]

abbrev pub IsDated : Deadline → Type 0
IsDated d = (trim d.due ≢ []) ⊎ (trim d.expected ≢ [])

abbrev pub IsUndated : Deadline → Type 0
IsUndated d = (trim d.due ≡ []) × (trim d.expected ≡ [])

-- What a request says of a date, the date before it and the date after it.
pub record Dates (named : Option (Option Text)) (old new : Text) : Type 0 where
  pub kept : named ≡ none → new ≡ old
  pub removed : named ≡ some none → new ≡ []
  pub set : (t : Text) → named ≡ some (some t) → new ≡ trim t

-- What a request says of a field that describes a date, and that field before and after it, where
-- `e` is the deadline after it.
pub record Describes {A V : Type 0} (absent : A) (value : V → A) (named : Option (Option V))
    (old new : A) (e : Deadline) : Type 0 where
  pub set : (v : V) → named ≡ some (some v) → new ≡ value v
  pub removed : named ≡ some none → new ≡ absent
  pub kept : named ≡ none → IsDated e → new ≡ old
  pub cleared : named ≡ none → IsUndated e → new ≡ absent

is_undated-IsDated : (e : Deadline) → is_undated e ≡ true → ¬ IsDated e
is_undated-IsDated e h d = ground arith

is_undated-IsUndated : (e : Deadline) → is_undated e ≡ false → ¬ IsUndated e
is_undated-IsUndated e h d = ground arith

module _ {A V : Type 0} (absent : A) (value : V → A) (read : Option V → A)
    (read_value : (v : V) → read (some v) ≡ value v) (read_null : read none ≡ absent)
    (named : Option (Option V)) (old : A) (e : Deadline) where
  Describes-dated :
      is_undated e ≡ false → Describes absent value named old (set_or_keep named read old) e
  Describes-dated u = record {
    set = λ v h. rw h (read_value v);
    removed = λ h. rw h read_null;
    kept = λ h d. rw h;
    cleared = λ h d. absurd (is_undated-IsUndated e u d);
  }

  Describes-undated :
      is_undated e ≡ true
      → Describes absent value named old
          (if is_some named then set_or_keep named read old else absent)
          e
  Describes-undated u = record {
    set = λ v h. rw h (read_value v);
    removed = λ h. rw h read_null;
    kept = λ h d. absurd (is_undated-IsDated e u d);
    cleared = λ h d. rw h;
  }

Dates-patched :
    (named : Option (Option Text)) (old : Text)
    → Dates named old (set_or_keep named (λ v. trim (or_empty v)) old)
Dates-patched named old = record {
  kept = λ h. ground arith;
  removed = λ h. unfold trim in ground arith;
  set = λ t h. ground arith;
}

-- What the deadline after a request is, field by field.
pub record Follows (p : DeadlinePatch) (d e : Deadline) : Type 0 where
  pub due : Dates p.due d.due e.due
  pub expected : Dates p.expected d.expected e.expected
  pub hard : Describes false (λ v. v) p.hard d.hard e.hard e
  pub remind_days : Describes none some p.remind_days d.remind_days e.remind_days e
  pub waits_on : Describes [] (λ v. v) p.waits_on d.waits_on e.waits_on e

apply-Follows : (p : DeadlinePatch) (d : Deadline) → Follows p d (apply p d)
apply-Follows p d = elim (Bool-cases (is_undated (patched p d))) [
  | inl e ↦ rw (apply_undated p d e) (record {
    due = Dates-patched p.due d.due;
    expected = Dates-patched p.expected d.expected;
    hard = Describes-undated false (λ v. v) (λ v. or_false v) (λ v. refl) refl p.hard d.hard _ e;
    remind_days =
        Describes-undated none some (λ v. v) (λ v. refl) refl p.remind_days d.remind_days _ e;
    waits_on =
        Describes-undated [] (λ v. v) (λ v. or_empty v) (λ v. refl) refl p.waits_on d.waits_on _ e;
  })
  | inr e ↦ rw (apply_dated p d e) (record {
    due = Dates-patched p.due d.due;
    expected = Dates-patched p.expected d.expected;
    hard = Describes-dated false (λ v. v) (λ v. or_false v) (λ v. refl) refl p.hard d.hard _ e;
    remind_days =
        Describes-dated none some (λ v. v) (λ v. refl) refl p.remind_days d.remind_days _ e;
    waits_on =
        Describes-dated [] (λ v. v) (λ v. or_empty v) (λ v. refl) refl p.waits_on d.waits_on _ e;
  })
]

-- Whatever a request names and whatever is stored: each of the two dates is kept where the request
-- does not name it, removed where it names it as null, and set without the white space around it
-- otherwise. What describes a date is set where the request names it, to nothing where it names it as
-- null; where it does not, it is kept while a date is left, and gone once none is. And the same request
-- again changes nothing.
pub apply_lem :
    (p : DeadlinePatch) (d : Deadline) → Follows p d (apply p d) × (apply p (apply p d) ≡ apply p d)
apply_lem p d = (apply-Follows p d, apply_idem p d)

-- A request that names no field leaves a deadline with a date as it is.
pub apply_nothing :
    (p : DeadlinePatch) (d : Deadline)
    → names_nothing p ≡ true
    → (trim d.due ≢ []) ⊎ (trim d.expected ≢ [])
    → apply p d ≡ d
unfolding apply names_nothing
apply_nothing p d n h = ground arith

validate-undated :
    (chrono : Chrono) (regex_find : Text → Text → Option Text) (is_task : Bool) (d : Deadline)
    → validate chrono regex_find is_task d ≡ err undated
    → (is_undated d ≡ true)
      × ((d.hard || is_some d.remind_days || not (is_empty (trim d.waits_on))) ≡ true)
unfolding validate
validate-undated chrono regex_find is_task d e = (ground arith, ground arith)

apply-plain :
    (p : DeadlinePatch) (d : Deadline)
    → p.hard ≡ none
    → p.remind_days ≡ none
    → p.waits_on ≡ none
    → is_undated (apply p d) ≡ true
    → (let e = apply p d in e.hard || is_some e.remind_days || not (is_empty (trim e.waits_on)))
      ≢ true
unfolding trim
apply-plain p d h r w blank described = elim (Bool-cases (is_undated (patched p d))) [
  | inl e ↦ let described' = (rw (apply_undated p d e, h, r, w) at described) in ground arith
  | inr e ↦ let blank' = (rw (apply_dated p d e) at blank) in ground arith
]

-- A request that does not name what describes a date never leaves such a description without one:
-- it is not refused for a missing date, whatever it does to the dates.
pub apply-not-undated :
    (chrono : Chrono) (regex_find : Text → Text → Option Text) (is_task : Bool) (p : DeadlinePatch)
    (d : Deadline)
    → p.hard ≡ none
    → p.remind_days ≡ none
    → p.waits_on ≡ none
    → validate chrono regex_find is_task (apply p d) ≢ err undated
apply-not-undated chrono regex_find is_task p d h r w e =
    let (blank, described) = validate-undated chrono regex_find is_task (apply p d) e in
    apply-plain p d h r w blank described
