-- ===== src/Entry/Lifecycle.antt =====
-- The key of an accepted entry tells its kind, and its status where it is in its life.
use kyb.Common.{
  true, false, not, ◌&&◌, ◌||◌, ◌≡◌, ◌≢◌, inl, inr, refl, sym, ◌∙◌, Option, [], ◌∷◌, Text, codes,
  ◌==◌, eq_sound, eq_refl, starts_with, contains, Bool-cases, ok, arith,
}
use kyb.Deadline.{Chrono}
use kyb.Entry.{
  Entry, incident_prefix, task_prefix, is_valid_key, is_task, is_incident, is_closed, is_live_task,
  task_statuses, task_live_statuses, task_terminal_statuses, status_blocked,
}
use kyb.Entry.Validation.{is_blank, validate}
use kyb.Entry.Accepted.{Common, Kinds, knowledge, task, incident, kinds, validate-Common}

one_prefix : (k : Text) → (starts_with task_prefix k && starts_with incident_prefix k) ≡ false
unfolding starts_with
one_prefix [] = refl
one_prefix (c ∷ s) = ground arith

live_or_terminal :
    (s : Text)
    → contains task_statuses s
      ≡ (contains task_live_statuses s || contains task_terminal_statuses s)
unfolding contains
live_or_terminal s = ground arith

not_both : (s : Text) → (contains task_live_statuses s && contains task_terminal_statuses s) ≡ false
unfolding contains ◌==◌
not_both s = elim (Bool-cases (codes "open" == s)) [
  | inl e ↦ rw (← eq_sound (codes "open") s e) refl
  | inr n ↦ elim (Bool-cases (codes "in_progress" == s)) [
    | inl e ↦ rw (← eq_sound (codes "in_progress") s e) refl
    | inr n' ↦ elim (Bool-cases (codes "blocked" == s)) [
      | inl e ↦ rw (← eq_sound (codes "blocked") s e) refl
      | inr n'' ↦ ground (arith, n, n', n'')
    ]
  ]
]

module _ (chrono : Chrono) (regex_find : Text → Text → Option Text) where
  names :
      (e : Entry)
      → Kinds chrono regex_find e
      → (starts_with task_prefix e.key ≡ is_task e)
        × (starts_with incident_prefix e.key ≡ is_incident e)
  names e (knowledge t i c) = (c.no_task ∙ sym t, c.no_incident ∙ sym i)
  names e (task t i c) = (c.prefixed ∙ sym t, ground (arith, one_prefix e.key, c.prefixed, i))
  names e (incident t i c) = (ground (arith, one_prefix e.key, c.prefixed, t), c.prefixed ∙ sym i)

  -- The key of an accepted entry is valid, and its prefix alone says which kind the entry is.
  pub validate-prefix :
      (e : Entry)
      → validate chrono regex_find e ≡ ok tt
      → (is_valid_key e.key ≡ true)
        × (starts_with task_prefix e.key ≡ is_task e)
        × (starts_with incident_prefix e.key ≡ is_incident e)
  validate-prefix e h =
      let c = validate-Common chrono regex_find e h in
      let (of_task, of_incident) = names e (kinds chrono regex_find e c.kind_checked) in
      (c.key_valid, of_task, of_incident)

  task_lives :
      (e : Entry)
      → Kinds chrono regex_find e
      → is_task e ≡ true
      → is_live_task e ≡ not (is_closed e)
  unfolding is_live_task is_closed
  task_lives e (knowledge t i c) h = ground (arith, t, h)
  task_lives e (task t i c) h =
      let either = live_or_terminal e.status in
      let never = not_both e.status in
      let known = c.status_known in rw (t, i) (ground (arith, either, never, known))
  task_lives e (incident t i c) h = ground (arith, t, h)

  closed_resolved :
      (e : Entry) → Kinds chrono regex_find e → is_closed e ≡ true → is_blank e.resolution ≡ false
  closed_resolved e (knowledge t i c) h = unfold is_closed in ground (arith, t, i, h)
  closed_resolved e (task t i c) h = ground (arith, c.resolved, h)
  closed_resolved e (incident t i c) h = unfold is_closed in ground (arith, c.resolved, t, h)

  reason_blocked :
      (e : Entry)
      → Kinds chrono regex_find e
      → Common chrono regex_find e
      → is_blank e.blocked_reason ≡ false
      → (is_task e ≡ true) × (e.status ≡ status_blocked)
  reason_blocked e (knowledge t i c) k b = ground (arith, k.reason_of_task, t, b)
  reason_blocked e (task t i c) k b =
      (t, eq_sound e.status status_blocked (ground (arith, c.reason_fits, b)))
  reason_blocked e (incident t i c) k b = ground (arith, k.reason_of_task, t, b)

  valid_not_empty : (k : Text) → is_valid_key k ≡ true → k ≢ []
  valid_not_empty k v e = unfold is_valid_key in ground (arith, v, e)

  not_own_parent :
      (e : Entry)
      → Kinds chrono regex_find e
      → is_valid_key e.key ≡ true
      → is_task e ≡ true
      → e.parent_task ≢ e.key
  not_own_parent e (knowledge t i c) v h same = ground (arith, t, h)
  not_own_parent e (task t i c) v h same =
      let full = valid_not_empty e.key v in
      let equal : (e.parent_task == e.key) ≡ true = rw same (eq_refl e.key) in
      ground (arith, c.not_own, equal, full, same)
  not_own_parent e (incident t i c) v h same = ground (arith, t, h)

  -- An accepted task is live or closed, never both, and not its own parent. An accepted entry that
  -- is closed says how it ended, and only a blocked task gives a reason for being blocked.
  pub validate-lifecycle :
      (e : Entry)
      → validate chrono regex_find e ≡ ok tt
      → (is_task e ≡ true → is_live_task e ≡ not (is_closed e))
        × (is_task e ≡ true → e.parent_task ≢ e.key)
        × (is_closed e ≡ true → is_blank e.resolution ≡ false)
        × (is_blank e.blocked_reason ≡ false → (is_task e ≡ true) × (e.status ≡ status_blocked))
  validate-lifecycle e h =
      let c = validate-Common chrono regex_find e h in
      let k = kinds chrono regex_find e c.kind_checked in
      (task_lives e k, not_own_parent e k c.key_valid, closed_resolved e k, reason_blocked e k c)
