-- ===== src/Service.antt =====
-- main.rs: the routes that write entries. A route builds an entry from its request and from the
-- versions that are stored, and one locked section commits it.
pub mod Parents
pub mod Forest
pub mod Requests
pub mod Building
pub mod Moving
pub mod Timeline
pub mod Closing
pub mod Transitions
pub mod State
pub mod Commit
pub mod Landing
pub mod Writes
pub mod Refusals
pub mod Removal
pub mod Removals
mod Tests
mod WriteTests
use kyb.Common.{
  Bool, true, false, not, ◌&&◌, Option, none, some, Text, codes, ◌==◌, trim, is_empty,
  if◌then◌else◌,
}
use kyb.Entry.{Entry, kind_knowledge, is_incident, is_closed}

-- What the writer sees of the store: the entry in the tree, where its file is there and can be read,
-- and the last version in the history.
pub record View : Type 0 where
  pub tree : Text → Option Entry
  pub latest : Text → Option Entry

abbrev pub not_knowledge : Option Entry → Option Entry
not_knowledge none = none
not_knowledge (some e) = if e.kind == kind_knowledge then none else some e

abbrev pub or_latest : Option Entry → Option Entry → Option Entry
or_latest (some e) last = some e
or_latest none last = not_knowledge last

unfoldable pub stored_version : View → Text → Option Entry
stored_version v key = or_latest (v.tree key) (v.latest key)

abbrev pub is_blank : Text → Bool
is_blank s = is_empty (trim s)

abbrev pub or_stored : Text → Text → Text
or_stored field stored = if is_blank field then stored else field

-- The fields that a write leaves empty are those of the stored version.
abbrev pub inherit : Option Entry → Entry → Entry
inherit none e = e
inherit (some old) e = record e {
  started_at = or_stored e.started_at old.started_at;
  detected_at = or_stored e.detected_at old.detected_at;
  mitigated_at = or_stored e.mitigated_at old.mitigated_at;
  resolved_at = or_stored e.resolved_at old.resolved_at;
}

abbrev pub stamp_if : Bool → Text → Text → Text
stamp_if due now field = if due && is_blank field then now else field

-- The stamps that the server sets; `now` is what `now_utc` says.
unfoldable pub stamp_timeline : View → Text → Entry → Entry
stamp_timeline v now entry =
    let e = inherit (stored_version v entry.key) entry in
    record e {
      detected_at = stamp_if (is_incident e) now e.detected_at;
      mitigated_at = stamp_if (e.status == codes "mitigated") now e.mitigated_at;
      resolved_at = stamp_if (is_closed e) now e.resolved_at;
    }
