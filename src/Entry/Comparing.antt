-- ===== src/Entry/Comparing.antt =====
-- model.rs: `Entry::same_content`, which decides whether a write changes anything.
use kyb.Common.{
  Bool, true, ◌&&◌, ◌≡◌, ◌↔◌, refl, sym, ◌∙◌, [], ◌==◌, eq_sound, eq_refl, trim_end, trim_end_idem,
  arith,
}
use kyb.Entry.{Entry}
use kyb.Entry.Equality.{
  same_texts, same_windows, same_deadline, same_texts_sound, same_texts_refl, same_windows_sound,
  same_windows_refl, same_deadline_sound, same_deadline_refl,
}

unfoldable pub same_content : Entry → Entry → Bool
same_content a b =
    a.key == b.key
    && a.title == b.title
    && a.kind == b.kind
    && a.service == b.service
    && same_texts a.hosts b.hosts
    && a.severity == b.severity
    && a.status == b.status
    && a.priority == b.priority
    && a.blocked_reason == b.blocked_reason
    && a.assignee == b.assignee
    && a.parent_task == b.parent_task
    && same_deadline a.deadline b.deadline
    && same_texts a.knowledge b.knowledge
    && a.resolution == b.resolution
    && a.detection == b.detection
    && same_windows a.affected b.affected
    && a.started_at == b.started_at
    && a.detected_at == b.detected_at
    && a.mitigated_at == b.mitigated_at
    && a.resolved_at == b.resolved_at
    && same_texts a.tags b.tags
    && same_texts a.refs b.refs
    && trim_end a.body == trim_end b.body

and_parts : {p q : Bool} → (p && q) ≡ true → (p ≡ true) × (q ≡ true)
and_parts {p} {q} h = (ground arith, ground arith)

-- What is compared of an entry.
abbrev pub compared : Entry → Entry
compared e = record e { updated_at = []; body = trim_end e.body }

-- The fields that a path between two entries is made of.
record Agree (a b : Entry) : Type 0 where
  key_eq : a.key ≡ b.key
  title_eq : a.title ≡ b.title
  kind_eq : a.kind ≡ b.kind
  service_eq : a.service ≡ b.service
  hosts_eq : a.hosts ≡ b.hosts
  severity_eq : a.severity ≡ b.severity
  status_eq : a.status ≡ b.status
  priority_eq : a.priority ≡ b.priority
  blocked_reason_eq : a.blocked_reason ≡ b.blocked_reason
  assignee_eq : a.assignee ≡ b.assignee
  parent_task_eq : a.parent_task ≡ b.parent_task
  deadline_eq : a.deadline ≡ b.deadline
  knowledge_eq : a.knowledge ≡ b.knowledge
  resolution_eq : a.resolution ≡ b.resolution
  detection_eq : a.detection ≡ b.detection
  affected_eq : a.affected ≡ b.affected
  started_at_eq : a.started_at ≡ b.started_at
  detected_at_eq : a.detected_at ≡ b.detected_at
  mitigated_at_eq : a.mitigated_at ≡ b.mitigated_at
  resolved_at_eq : a.resolved_at ≡ b.resolved_at
  tags_eq : a.tags ≡ b.tags
  refs_eq : a.refs ≡ b.refs
  body_eq : trim_end a.body ≡ trim_end b.body

same_content-Agree : (a b : Entry) → same_content a b ≡ true → Agree a b
unfolding same_content
same_content-Agree a b h0 =
    let (h1, body_same) = and_parts h0 in
    let (h2, refs_same) = and_parts h1 in
    let (h3, tags_same) = and_parts h2 in
    let (h4, resolved_at_same) = and_parts h3 in
    let (h5, mitigated_at_same) = and_parts h4 in
    let (h6, detected_at_same) = and_parts h5 in
    let (h7, started_at_same) = and_parts h6 in
    let (h8, affected_same) = and_parts h7 in
    let (h9, detection_same) = and_parts h8 in
    let (h10, resolution_same) = and_parts h9 in
    let (h11, knowledge_same) = and_parts h10 in
    let (h12, deadline_same) = and_parts h11 in
    let (h13, parent_task_same) = and_parts h12 in
    let (h14, assignee_same) = and_parts h13 in
    let (h15, blocked_reason_same) = and_parts h14 in
    let (h16, priority_same) = and_parts h15 in
    let (h17, status_same) = and_parts h16 in
    let (h18, severity_same) = and_parts h17 in
    let (h19, hosts_same) = and_parts h18 in
    let (h20, service_same) = and_parts h19 in
    let (h21, kind_same) = and_parts h20 in
    let (h22, title_same) = and_parts h21 in
    record {
      key_eq = eq_sound a.key b.key h22;
      title_eq = eq_sound a.title b.title title_same;
      kind_eq = eq_sound a.kind b.kind kind_same;
      service_eq = eq_sound a.service b.service service_same;
      hosts_eq = same_texts_sound a.hosts b.hosts hosts_same;
      severity_eq = eq_sound a.severity b.severity severity_same;
      status_eq = eq_sound a.status b.status status_same;
      priority_eq = eq_sound a.priority b.priority priority_same;
      blocked_reason_eq = eq_sound a.blocked_reason b.blocked_reason blocked_reason_same;
      assignee_eq = eq_sound a.assignee b.assignee assignee_same;
      parent_task_eq = eq_sound a.parent_task b.parent_task parent_task_same;
      deadline_eq = same_deadline_sound a.deadline b.deadline deadline_same;
      knowledge_eq = same_texts_sound a.knowledge b.knowledge knowledge_same;
      resolution_eq = eq_sound a.resolution b.resolution resolution_same;
      detection_eq = eq_sound a.detection b.detection detection_same;
      affected_eq = same_windows_sound a.affected b.affected affected_same;
      started_at_eq = eq_sound a.started_at b.started_at started_at_same;
      detected_at_eq = eq_sound a.detected_at b.detected_at detected_at_same;
      mitigated_at_eq = eq_sound a.mitigated_at b.mitigated_at mitigated_at_same;
      resolved_at_eq = eq_sound a.resolved_at b.resolved_at resolved_at_same;
      tags_eq = same_texts_sound a.tags b.tags tags_same;
      refs_eq = same_texts_sound a.refs b.refs refs_same;
      body_eq = eq_sound (trim_end a.body) (trim_end b.body) body_same;
    }

Agree-compared : (a b : Entry) → Agree a b → compared a ≡ compared b
Agree-compared a b g = λ i. record {
  key = g.key_eq i;
  title = g.title_eq i;
  kind = g.kind_eq i;
  service = g.service_eq i;
  hosts = g.hosts_eq i;
  severity = g.severity_eq i;
  status = g.status_eq i;
  priority = g.priority_eq i;
  blocked_reason = g.blocked_reason_eq i;
  assignee = g.assignee_eq i;
  parent_task = g.parent_task_eq i;
  deadline = g.deadline_eq i;
  knowledge = g.knowledge_eq i;
  resolution = g.resolution_eq i;
  detection = g.detection_eq i;
  affected = g.affected_eq i;
  started_at = g.started_at_eq i;
  detected_at = g.detected_at_eq i;
  mitigated_at = g.mitigated_at_eq i;
  resolved_at = g.resolved_at_eq i;
  tags = g.tags_eq i;
  refs = g.refs_eq i;
  body = g.body_eq i;
  updated_at = [];
}

same_content_refl : (a : Entry) → same_content a a ≡ true
unfolding same_content
same_content_refl a =
    rw
      (
        eq_refl a.key,
        eq_refl a.title,
        eq_refl a.kind,
        eq_refl a.service,
        same_texts_refl a.hosts,
        eq_refl a.severity,
        eq_refl a.status,
        eq_refl a.priority,
        eq_refl a.blocked_reason,
        eq_refl a.assignee,
        eq_refl a.parent_task,
        same_deadline_refl a.deadline,
        same_texts_refl a.knowledge,
        eq_refl a.resolution,
        eq_refl a.detection,
        same_windows_refl a.affected,
        eq_refl a.started_at,
        eq_refl a.detected_at,
        eq_refl a.mitigated_at,
        eq_refl a.resolved_at,
        same_texts_refl a.tags,
        same_texts_refl a.refs,
        eq_refl (trim_end a.body),
      )
      refl

same_content-compared : (a b : Entry) → same_content (compared a) (compared b) ≡ same_content a b
unfolding same_content
same_content-compared a b = rw (trim_end_idem a.body, trim_end_idem b.body) refl

-- Two entries have the same content exactly if they agree in all but the date of the last update
-- and white space at the end of the body.
pub same_content_iff : (a b : Entry) → (same_content a b ≡ true) ↔ (compared a ≡ compared b)
same_content_iff a b = (
  λ h. Agree-compared a b (same_content-Agree a b h),
  λ e. sym (same_content-compared a b) ∙ rw e (same_content_refl (compared b)),
)
