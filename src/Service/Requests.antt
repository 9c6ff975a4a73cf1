-- ===== src/Service/Requests.antt =====
-- main.rs: the requests that write entries, and what a route builds of one under the lock: a refusal, or
-- the entry to commit and the fields that the route adds to its reply.
use kyb.Common.{ℕ, Option, none, List, [], Text, Result}
use kyb.Entry.{Entry, Window}
use kyb.Deadline.{Deadline, DeadlinePatch}

pub record UpsertReq : Type 0 where
  pub key : Text
  pub title : Text
  pub body : Text
  pub tags : List Text
  pub refs : List Text

pub record IncidentReq : Type 0 where
  pub key : Text
  pub title : Text
  pub body : Text
  pub service : Text
  pub hosts : List Text
  pub severity : Text
  pub status : Text
  pub knowledge : List Text
  pub resolution : Text
  pub detection : Text
  pub affected : List Window
  pub started_at : Text
  pub detected_at : Text
  pub tags : Option (List Text)
  pub refs : List Text

pub record TaskReq : Type 0 where
  pub key : Text
  pub title : Text
  pub body : Text
  pub status : Text
  pub priority : Text
  pub blocked_reason : Text
  pub assignee : Text
  pub parent_task : Text
  pub knowledge : List Text
  pub resolution : Text
  pub tags : Option (List Text)
  pub refs : List Text
  pub deadline : DeadlinePatch

pub record ResolveReq : Type 0 where
  pub resolution : Text
  pub status : Option Text

pub record TransitionReq : Type 0 where
  pub status : Option Text
  pub assignee : Option Text
  pub parent_task : Option Text
  pub blocked_reason : Option Text
  pub deadline : DeadlinePatch

pub data Hint : Type 0 where
  no_detection no_affected no_followups no_root_cause : Hint

-- A field that is not in the reply is none here.
pub record Extra : Type 0 where
  pub unknown_knowledge : List Text
  pub hints : List Hint
  pub unknown_parent : Option Text
  pub open_followups : Option ℕ
  pub status : Option Text
  pub assignee : Option Text
  pub deadline : Option Deadline

abbrev pub null : Extra
null = record {
  unknown_knowledge = [];
  hints = [];
  unknown_parent = none;
  open_followups = none;
  status = none;
  assignee = none;
  deadline = none;
}

pub data Refusal : Type 0 where
  invalid_key no_entry not_an_incident not_a_task nothing_to_change : Refusal
  closes_a_task unknown_status needs_a_status : Refusal

abbrev pub Built : Type 0
Built = Result Refusal (Entry × Extra)
