-- ===== src/Brief/Orders.antt =====
-- What the sections of a brief list, in which order, and what they leave out.
use kyb.Common.{
  not, All, ◌++◌, ℕ, ◌+◌, Bool, ◌≡◌, refl, ap, ◌∙◌, Option, List, [], ◌∷◌, map, Text, length, take,
  retain, length-take, compare, text_cmp, arith,
}
use mathlib.Core.List.{Perm}
use kyb.Common.Int.{ℤ}
use kyb.Common.Orders.{
  IsOrder, then-IsOrder, on-IsOrder, reversed-IsOrder, compare-IsOrder, text_cmp-IsOrder,
}
use kyb.Common.Sorts.{sort_by, sort_by-perm, sort_by-IsSorted, length-sort_by}
use kyb.Deadline.{DateTime, Chrono}
use kyb.Brief.{
  Scope, section, IncidentRow, incident_order, sort_incidents, incident_statuses, severity_rank,
  rank, option_rank, cap_incidents,
}
use kyb.Brief.Qualifying.{
  Qualifies, InOrder, Reports, All-Reports, Perm-retain, retain-Qualifies, retain-not-Qualifies,
  IsSorted-InOrder,
}
use kyb.Brief.Sections.{Hit, cap, is_open, incident_row, incidents_section}

incident_order-IsOrder : IsOrder incident_order
unfolding incident_order
incident_order-IsOrder =
    then-IsOrder _ (λ a b. text_cmp a.key b.key)
      (then-IsOrder _ (λ a b. compare (option_rank b.age_days) (option_rank a.age_days))
        (then-IsOrder (λ a b. compare (severity_rank a.severity) (severity_rank b.severity))
          (λ a b. compare (rank incident_statuses a.status) (rank incident_statuses b.status))
          (on-IsOrder compare-IsOrder (λ (r : IncidentRow). severity_rank r.severity))
          (on-IsOrder compare-IsOrder (λ (r : IncidentRow). rank incident_statuses r.status)))
        (reversed-IsOrder
          (on-IsOrder compare-IsOrder (λ (r : IncidentRow). option_rank r.age_days))))
      (on-IsOrder text_cmp-IsOrder (λ (r : IncidentRow). r.key))

length-map : {A B : Type 0} (f : A → B) (xs : List A) → length (map f xs) ≡ length xs
length-map f [] = refl
length-map f (x ∷ xs) = ap ℕ.suc (length-map f xs)

section-all :
    {A : Type 0} (rows : List A) (n : ℕ)
    → length (section rows n).items + (section rows n).more ≡ length rows
unfolding section
section-all rows n = let cut_off = length-take n rows in omega arith

-- The hits split into those that qualify, open or mitigated, in scope and not archived, and the others.
-- The section counts those that qualify. Its rows tell of these, with an age from the start, or else the
-- detection, or else the commit. They stand in order, the most severe first, cut to the limit, or to
-- five without one; and the section says how many it leaves out.
pub incidents_section_lem :
    (scope : Scope) (is_archived : Text → Bool) (chrono : Chrono)
    (days_between : DateTime → DateTime → ℤ) (now : DateTime) (hits : List Hit) (limit : Option ℕ)
    → let s = incidents_section scope is_archived chrono days_between now hits limit in
      (chosen : List Hit) × (others : List Hit) × (rows : List IncidentRow) × Perm hits
        (chosen ++ others)
      × All (Qualifies scope is_archived) chosen
      × All (λ h. ¬ Qualifies scope is_archived h) others
      × All (λ h. Reports chrono days_between now h (incident_row chrono days_between now h)) chosen
      × Perm rows (map (incident_row chrono days_between now) chosen)
      × InOrder rows
      × (s.items ≡ take (cap limit 5) rows)
      × (s.count ≡ length chosen)
      × (length s.items + s.more ≡ s.count)
unfolding incidents_section section sort_incidents
incidents_section_lem scope is_archived chrono days_between now hits limit =
    let open_hits = retain (is_open scope is_archived) hits in
    let unsorted = map (incident_row chrono days_between now) open_hits in
    let sorted = sort_by incident_order unsorted in
    (
      open_hits,
      retain (λ h. not (is_open scope is_archived h)) hits,
      sorted,
      Perm-retain (is_open scope is_archived) hits,
      retain-Qualifies scope is_archived hits,
      retain-not-Qualifies scope is_archived hits,
      All-Reports chrono days_between now open_hits,
      sort_by-perm incident_order unsorted,
      IsSorted-InOrder sorted (sort_by-IsSorted incident_order incident_order-IsOrder unsorted),
      refl,
      length-sort_by incident_order unsorted
          ∙ length-map (incident_row chrono days_between now) open_hits,
      section-all sorted (cap limit cap_incidents),
    )
