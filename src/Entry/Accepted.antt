-- ===== src/Entry/Accepted.antt =====
-- What holds of an entry that `validate` accepts.
use kyb.Common.{
  true, false, not, ◌&&◌, ◌||◌, ◌≡◌, inl, inr, refl, Option, Text, codes, ◌==◌, eq_sound, is_empty,
  starts_with, contains, Bool-cases, ok, arith,
}
use kyb.Deadline.{Chrono}
use kyb.Entry.{
  Entry, kind_knowledge, kind_incident, kind_task, incident_prefix, task_prefix, is_valid_key,
  is_task, is_incident, is_closed, task_statuses, status_blocked, statuses,
}
use kyb.Entry.Validation.{
  has_secret, is_blank, check_knowledge, check_task, check_incident, check_kind, validate,
}

module _ (chrono : Chrono) (regex_find : Text → Text → Option Text) where
  -- The checks that `validate` makes of every entry.
  pub record Common (e : Entry) : Type 0 where
    pub key_valid : is_valid_key e.key ≡ true
    pub kind_checked : check_kind chrono regex_find e ≡ ok tt
    pub reason_of_task : (is_task e || is_blank e.blocked_reason) ≡ true
    pub no_secret : has_secret chrono regex_find e.body ≡ false

  pub validate-Common : (e : Entry) → validate chrono regex_find e ≡ ok tt → Common e
  unfolding validate
  validate-Common e h = record {
    key_valid = ground arith;
    kind_checked = ground arith;
    reason_of_task = ground arith;
    no_secret = ground arith;
  }

  pub record TaskChecked (e : Entry) : Type 0 where
    pub prefixed : starts_with task_prefix e.key ≡ true
    pub status_known : contains task_statuses e.status ≡ true
    pub reason_fits : (e.status == status_blocked || is_blank e.blocked_reason) ≡ true
    pub resolved : (is_closed e && is_blank e.resolution) ≡ false
    pub not_own : (is_empty e.parent_task || not (e.parent_task == e.key)) ≡ true

  check_task-TaskChecked : (e : Entry) → check_task chrono regex_find e ≡ ok tt → TaskChecked e
  unfolding check_task
  check_task-TaskChecked e h = record {
    prefixed = ground arith;
    status_known = ground arith;
    reason_fits = ground arith;
    resolved = ground arith;
    not_own = ground arith;
  }

  pub record IncidentChecked (e : Entry) : Type 0 where
    pub prefixed : starts_with incident_prefix e.key ≡ true
    pub status_known : contains statuses e.status ≡ true
    pub resolved : (e.status == codes "resolved" && is_blank e.resolution) ≡ false

  check_incident-IncidentChecked :
      (e : Entry) → check_incident chrono regex_find e ≡ ok tt → IncidentChecked e
  unfolding check_incident
  check_incident-IncidentChecked e h = record {
    prefixed = ground arith;
    status_known = ground arith;
    resolved = ground arith;
  }

  pub record KnowledgeChecked (e : Entry) : Type 0 where
    pub no_incident : starts_with incident_prefix e.key ≡ false
    pub no_task : starts_with task_prefix e.key ≡ false

  check_knowledge-KnowledgeChecked :
      (e : Entry) → check_knowledge chrono regex_find e ≡ ok tt → KnowledgeChecked e
  unfolding check_knowledge
  check_knowledge-KnowledgeChecked e h = record {
    no_incident = ground arith;
    no_task = ground arith;
  }

  -- Each kind with what was checked of it.
  pub data Kinds (e : Entry) : Type 0 where
    knowledge : is_task e ≡ false → is_incident e ≡ false → KnowledgeChecked e → Kinds e
    task : is_task e ≡ true → is_incident e ≡ false → TaskChecked e → Kinds e
    incident : is_task e ≡ false → is_incident e ≡ true → IncidentChecked e → Kinds e

  pub kinds : (e : Entry) → check_kind chrono regex_find e ≡ ok tt → Kinds e
  unfolding check_kind is_task is_incident ◌==◌
  kinds e h = elim (Bool-cases (e.kind == kind_knowledge)) [
    | inl k ↦
        let same = eq_sound e.kind kind_knowledge k in
        knowledge (rw same refl) (rw same refl)
          (check_knowledge-KnowledgeChecked e (ground (arith, h)))
    | inr nk ↦ elim (Bool-cases (e.kind == kind_task)) [
      | inl t ↦
          let same = eq_sound e.kind kind_task t in
          task (rw same refl) (rw same refl) (check_task-TaskChecked e (ground (arith, h)))
      | inr nt ↦ elim (Bool-cases (e.kind == kind_incident)) [
        | inl i ↦
            let same = eq_sound e.kind kind_incident i in
            incident (rw same refl) (rw same refl)
              (check_incident-IncidentChecked e (ground (arith, h)))
        | inr ni ↦ ground (arith, h)
      ]
    ]
  ]
