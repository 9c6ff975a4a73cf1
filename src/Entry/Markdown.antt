-- ===== src/Entry/Markdown.antt =====
-- model.rs: `Entry::to_markdown` and `Entry::from_markdown`. The YAML of the front matter (crate
-- serde_yaml) is an argument.
use kyb.Common.{
  ℕ, Bool, Option, none, some, List, [], ◌∷◌, ◌++◌, Text, trim_end, eqb, strip_prefix, Result, ok,
  ◌>>=◌, ok_or, if◌then◌else◌,
}
use kyb.Entry.{Entry, Window}

-- The front matter: all but the body, which is the text of an entry.
pub record Meta : Type 0 where
  pub key : Text
  pub title : Text
  pub kind : Text
  pub service : Text
  pub hosts : List Text
  pub severity : Text
  pub status : Text
  pub priority : Text
  pub blocked_reason : Text
  pub assignee : Text
  pub parent_task : Text
  pub due : Text
  pub hard : Bool
  pub remind_days : Option ℕ
  pub waits_on : Text
  pub expected : Text
  pub knowledge : List Text
  pub resolution : Text
  pub detection : Text
  pub affected : List Window
  pub started_at : Text
  pub detected_at : Text
  pub mitigated_at : Text
  pub resolved_at : Text
  pub tags : List Text
  pub refs : List Text
  pub updated_at : Text

pub record Yaml : Type 0 where
  pub to_string : Meta → Text
  pub from_str : Text → Option Meta

pub data ParseError : Type 0 where
  missing_frontmatter unclosed_frontmatter broken_yaml : ParseError

abbrev pub meta_of : Entry → Meta
meta_of e = record {
  key = e.key;
  title = e.title;
  kind = e.kind;
  service = e.service;
  hosts = e.hosts;
  severity = e.severity;
  status = e.status;
  priority = e.priority;
  blocked_reason = e.blocked_reason;
  assignee = e.assignee;
  parent_task = e.parent_task;
  due = e.deadline.due;
  hard = e.deadline.hard;
  remind_days = e.deadline.remind_days;
  waits_on = e.deadline.waits_on;
  expected = e.deadline.expected;
  knowledge = e.knowledge;
  resolution = e.resolution;
  detection = e.detection;
  affected = e.affected;
  started_at = e.started_at;
  detected_at = e.detected_at;
  mitigated_at = e.mitigated_at;
  resolved_at = e.resolved_at;
  tags = e.tags;
  refs = e.refs;
  updated_at = e.updated_at;
}

abbrev pub entry_of : Meta → Text → Entry
entry_of meta body = record {
  key = meta.key;
  title = meta.title;
  kind = meta.kind;
  service = meta.service;
  hosts = meta.hosts;
  severity = meta.severity;
  status = meta.status;
  priority = meta.priority;
  blocked_reason = meta.blocked_reason;
  assignee = meta.assignee;
  parent_task = meta.parent_task;
  deadline = record {
    due = meta.due;
    hard = meta.hard;
    remind_days = meta.remind_days;
    waits_on = meta.waits_on;
    expected = meta.expected;
  };
  knowledge = meta.knowledge;
  resolution = meta.resolution;
  detection = meta.detection;
  affected = meta.affected;
  started_at = meta.started_at;
  detected_at = meta.detected_at;
  mitigated_at = meta.mitigated_at;
  resolved_at = meta.resolved_at;
  tags = meta.tags;
  refs = meta.refs;
  updated_at = meta.updated_at;
  body = body;
}

-- "---\n" and "\n---\n".
abbrev pub opening : Text
opening = 45 ∷ 45 ∷ 45 ∷ 10 ∷ []

abbrev pub fence : Text
fence = 10 ∷ 45 ∷ 45 ∷ 45 ∷ 10 ∷ []

abbrev pub cons_front : ℕ → Option (Text × Text) → Option (Text × Text)
cons_front c none = none
cons_front c (some (s, t)) = some (c ∷ s, t)

abbrev pub or_later : Option Text → Option (Text × Text) → Option (Text × Text)
or_later (some t) later = some ([], t)
or_later none later = later

-- What stands before the first fence, and what stands behind it.
unfoldable pub find_fence : Text → Option (Text × Text)
find_fence [] = none
find_fence (c ∷ s) = or_later (strip_prefix fence (c ∷ s)) (cons_front c (find_fence s))

-- `trim_start_matches('\n')`.
unfoldable pub skip_newlines : Text → Text
skip_newlines [] = []
skip_newlines (c ∷ s) = if eqb c 10 then skip_newlines s else c ∷ s

module _ (yaml : Yaml) where
  unfoldable pub from_markdown : Text → Result ParseError Entry
  from_markdown s = do
    rest ← ok_or (strip_prefix opening s) missing_frontmatter
    (front, back) ← ok_or (find_fence rest) unclosed_frontmatter
    meta ← ok_or (yaml.from_str front) broken_yaml
    ok (entry_of meta (trim_end (skip_newlines back)))

  unfoldable pub to_markdown : Entry → Text
  to_markdown e =
      opening ++ (yaml.to_string (meta_of e) ++ (opening ++ (10 ∷ (trim_end e.body ++ (10 ∷ [])))))
