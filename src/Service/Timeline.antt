-- ===== src/Service/Timeline.antt =====
-- main.rs: the stamps that `stamp_timeline` sets, and those that it must not lose.
use kyb.Common.{
  subst, Bool, true, false, ◌≡◌, refl, sym, ap, ◌∙◌, inl, inr, Option, none, some, Text, codes,
  ◌==◌, Bool-cases, arith,
}
use kyb.Entry.{Entry, is_incident, is_task, is_closed}
use kyb.Service.{View, stored_version, is_blank, or_stored, inherit, stamp_if, stamp_timeline}

-- The fields that are stamped.
abbrev pub with_stamps : Entry → Entry → Entry
with_stamps e stamps = record e {
  started_at = stamps.started_at;
  detected_at = stamps.detected_at;
  mitigated_at = stamps.mitigated_at;
  resolved_at = stamps.resolved_at;
}

pub or_stored-is_blank : (a b : Text) → is_blank b ≡ false → is_blank (or_stored a b) ≡ false
or_stored-is_blank a b h = elim (Bool-cases (is_blank a)) [ inl x ↦ rw x h | inr x ↦ rw x x ]

stamp_if-is_blank :
    (due : Bool) (now a : Text) → is_blank a ≡ false → is_blank (stamp_if due now a) ≡ false
stamp_if-is_blank true now a h = rw h h
stamp_if-is_blank false now a h = h

stamp_if-due : (now a : Text) → is_blank now ≡ false → is_blank (stamp_if true now a) ≡ false
stamp_if-due now a h = elim (Bool-cases (is_blank a)) [ inl x ↦ rw x h | inr x ↦ rw x x ]

or_stored_self : (a : Text) → or_stored a a ≡ a
or_stored_self a = elim (Bool-cases (is_blank a)) [ inl x ↦ rw x refl | inr x ↦ rw x refl ]

stamp_if_again :
    (due : Bool) (now later a : Text)
    → is_blank now ≡ false
    → stamp_if due later (stamp_if due now a) ≡ stamp_if due now a
stamp_if_again true now later a h = rw (stamp_if-due now a h) refl
stamp_if_again false now later a h = refl

-- A stamp that the stored version has is never lost.
pub record Kept (old s : Entry) : Type 0 where
  pub started : is_blank old.started_at ≡ false → is_blank s.started_at ≡ false
  pub detected : is_blank old.detected_at ≡ false → is_blank s.detected_at ≡ false
  pub mitigated : is_blank old.mitigated_at ≡ false → is_blank s.mitigated_at ≡ false
  pub resolved : is_blank old.resolved_at ≡ false → is_blank s.resolved_at ≡ false

-- A stamp that is due is there.
pub record Stamped (s : Entry) : Type 0 where
  pub detected : is_incident s ≡ true → is_blank s.detected_at ≡ false
  pub mitigated : s.status == codes "mitigated" ≡ true → is_blank s.mitigated_at ≡ false
  pub resolved : is_closed s ≡ true → is_blank s.resolved_at ≡ false

-- The stamping over a stored version that is known.
abbrev stamped_over : Option Entry → Text → Entry → Entry
stamped_over stored now entry =
    let e = inherit stored entry in
    record e {
      detected_at = stamp_if (is_incident e) now e.detected_at;
      mitigated_at = stamp_if (e.status == codes "mitigated") now e.mitigated_at;
      resolved_at = stamp_if (is_closed e) now e.resolved_at;
    }

stamped_over-only :
    (stored : Option Entry) (now : Text) (e : Entry)
    → stamped_over stored now e ≡ with_stamps e (stamped_over stored now e)
stamped_over-only none now e = refl
stamped_over-only (some old) now e = refl

due_stamp :
    (due : Bool) (now a : Text)
    → is_blank now ≡ false
    → due ≡ true
    → is_blank (stamp_if due now a) ≡ false
due_stamp true now a h d = stamp_if-due now a h
due_stamp false now a h d = ground (arith, d)

stamped_over-Stamped :
    (stored : Option Entry) (now : Text) (e : Entry)
    → is_blank now ≡ false
    → Stamped (stamped_over stored now e)
unfolding is_incident is_task is_closed
stamped_over-Stamped none now e h = record {
  detected = λ d. due_stamp (is_incident e) now e.detected_at h d;
  mitigated = λ d. due_stamp (e.status == codes "mitigated") now e.mitigated_at h d;
  resolved = λ d. due_stamp (is_closed e) now e.resolved_at h d;
}
stamped_over-Stamped (some old) now e h = record {
  detected = λ d. due_stamp (is_incident e) now (or_stored e.detected_at old.detected_at) h d;
  mitigated = λ d.
      due_stamp (e.status == codes "mitigated") now (or_stored e.mitigated_at old.mitigated_at) h d;
  resolved = λ d. due_stamp (is_closed e) now (or_stored e.resolved_at old.resolved_at) h d;
}

kept_stamp :
    (due : Bool) (now a b : Text)
    → is_blank b ≡ false
    → is_blank (stamp_if due now (or_stored a b)) ≡ false
kept_stamp due now a b h = stamp_if-is_blank due now (or_stored a b) (or_stored-is_blank a b h)

stamped_over-Kept :
    (old : Entry) (now : Text) (e : Entry) → Kept old (stamped_over (some old) now e)
unfolding is_incident is_task is_closed
stamped_over-Kept old now e = record {
  started = or_stored-is_blank e.started_at old.started_at;
  detected = kept_stamp (is_incident e) now e.detected_at old.detected_at;
  mitigated = kept_stamp (e.status == codes "mitigated") now e.mitigated_at old.mitigated_at;
  resolved = kept_stamp (is_closed e) now e.resolved_at old.resolved_at;
}

-- A stamp that is there, or not due, stays.
stamp_if_settled :
    (due : Bool) (later a : Text)
    → (due ≡ true → is_blank a ≡ false)
    → stamp_if due later (or_stored a a) ≡ a
stamp_if_settled true later a h = rw (or_stored_self a, h refl) refl
stamp_if_settled false later a h = or_stored_self a

stamped_over-again : (s : Entry) (later : Text) → Stamped s → stamped_over (some s) later s ≡ s
unfolding is_incident is_task is_closed
stamped_over-again s later d =
    let started = or_stored_self s.started_at in
    let detected = stamp_if_settled (is_incident s) later s.detected_at d.detected in
    let mitigated =
      stamp_if_settled (s.status == codes "mitigated") later s.mitigated_at d.mitigated in
    let resolved = stamp_if_settled (is_closed s) later s.resolved_at d.resolved in
    rw (started, detected, mitigated, resolved) refl

again :
    (v' : View) (later : Text) (e s : Entry)
    → s.key ≡ e.key
    → Stamped s
    → stored_version v' e.key ≡ some s
    → stamp_timeline v' later s ≡ s
unfolding stamp_timeline
again v' later e s same d found =
    ap (λ o. stamped_over o later s) (ap (stored_version v') same ∙ found)
    ∙ stamped_over-again s later d

-- Where the clock says something, stamping sets the four stamps and nothing else, sets each that is
-- due, and loses none that the stored version has; and once its result is stored, stamping it again at
-- any time changes nothing.
pub stamp_timeline_lem :
    (v : View) (now : Text) (e : Entry)
    → is_blank now ≡ false
    → (stamp_timeline v now e ≡ with_stamps e (stamp_timeline v now e))
      × Stamped (stamp_timeline v now e)
      × ((old : Entry) → stored_version v e.key ≡ some old → Kept old (stamp_timeline v now e))
      × ((v' : View) (later : Text)
          → stored_version v' e.key ≡ some (stamp_timeline v now e)
          → stamp_timeline v' later (stamp_timeline v now e) ≡ stamp_timeline v now e)
unfolding stamp_timeline
stamp_timeline_lem v now e h =
    let stored = stored_version v e.key in
    let only = stamped_over-only stored now e in
    let stamped = stamped_over-Stamped stored now e h in
    (
      only,
      stamped,
      λ old found.
          subst (λ o. Kept old (stamped_over o now e)) (sym found) (stamped_over-Kept old now e),
      λ v' later found.
          again v' later e (stamped_over stored now e) (ap Entry.key only) stamped found,
    )
