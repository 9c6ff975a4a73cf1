-- ===== src/Brief/Tests.antt =====
-- Sections at concrete hits. No text is a date here.
use kyb.Common.{
  All, ◌++◌, ◌+◌, Bool, false, ◌≡◌, refl, none, some, List, [], ◌∷◌, map, Text, codes, ◌==◌, length,
  take, text_cmp, eq_ignore_ascii_case,
}
use mathlib.Core.List.{Perm}
use kyb.Common.Int.{ℤ, pos}
use kyb.Common.Sorts.{sort_by, insert_by}
use kyb.Deadline.{DateTime, Chrono, default}
use kyb.Brief.{
  Scope, section, admits, IncidentRow, incident_order, sort_incidents, severity_rank, rank,
}
use kyb.Brief.Sections.{Hit, cap, is_open, incident_row, incidents_section}
use kyb.Brief.Qualifying.{Qualifies, InOrder, Reports}
use kyb.Brief.Orders.{incidents_section_lem}

abbrev chrono : Chrono
chrono = record { parse_date = λ s. none; parse_rfc3339 = λ s. none; parse_minutes = λ s. none }

abbrev moment : DateTime
moment = record { instant = pos 8_700_000; day = pos 100 }

no_days : DateTime → DateTime → ℤ
no_days s t = pos 0

nothing_archived : Text → Bool
nothing_archived k = false

abbrev tagged : Scope
tagged = record { tags = codes "TLS" ∷ []; service = none }

abbrev low : Hit
low = record {
  key = codes "inc-a";
  title = codes "a";
  tags = codes "tls" ∷ [];
  service = codes "s";
  severity = codes "low";
  status = codes "open";
  priority = codes "high";
  blocked_reason = [];
  assignee = [];
  deadline = default;
  started_at = [];
  detected_at = [];
  committed_at = [];
}

abbrev high : Hit
high = record low { key = codes "inc-b"; severity = codes "high" }

abbrev elsewhere : Hit
elsewhere = record low { key = codes "inc-c"; tags = [] }

incidents_section-limit :
    map
      (λ r. r.key)
      (incidents_section tagged nothing_archived chrono no_days moment
        (low ∷ elsewhere ∷ high ∷ [])
        (some 1)).items
    ≡ codes "inc-b" ∷ []
unfolding incidents_section section sort_incidents sort_by insert_by incident_order incident_row
    is_open admits nothing_archived severity_rank rank eq_ignore_ascii_case ◌==◌ text_cmp
incidents_section-limit = refl

incidents_example :
    let hits = low ∷ elsewhere ∷ high ∷ [] in
    let s = incidents_section tagged nothing_archived chrono no_days moment hits (some 1) in
    (chosen : List Hit) × (others : List Hit) × (rows : List IncidentRow) × Perm hits
      (chosen ++ others)
    × All (Qualifies tagged nothing_archived) chosen
    × All (λ h. ¬ Qualifies tagged nothing_archived h) others
    × All (λ h. Reports chrono no_days moment h (incident_row chrono no_days moment h)) chosen
    × Perm rows (map (incident_row chrono no_days moment) chosen)
    × InOrder rows
    × (s.items ≡ take (cap (some 1) 5) rows)
    × (s.count ≡ length chosen)
    × (length s.items + s.more ≡ s.count)
incidents_example =
    incidents_section_lem tagged nothing_archived chrono no_days moment
      (low ∷ elsewhere ∷ high ∷ []) (some 1)
