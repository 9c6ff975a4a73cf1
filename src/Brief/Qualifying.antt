-- ===== src/Brief/Qualifying.antt =====
-- Which incidents a brief reports and which one it puts first, said apart from the code that picks
-- and sorts them; and what a row tells.
use kyb.Common.{
  ℕ, ◌+◌, ◌<◌, Bool, true, false, not, ◌||◌, ◌≡◌, ◌≢◌, ◌⊎◌, inl, inr, refl, Option, none, some,
  List, [], ◌∷◌, ◌++◌, Text, codes, ◌==◌, eq_iff, retain, all, All, compare, Ordering,
  eq_ignore_ascii_case, text_cmp, if◌then◌else◌, Bool-cases, arith,
}
use mathlib.Core.List.{Perm}
use mathlib.Core.List.Perm
use kyb.Common.Orders.{then_cmp}
use kyb.Common.Sorts.{IsSorted, Le}
use kyb.Common.Int.{ℤ}
use kyb.Deadline.{DateTime, Chrono}
use kyb.Brief.{
  age_days, Scope, admits, has_tag, is_none_or, severity_rank, rank, incident_statuses, option_rank,
  IncidentRow, incident_order,
}
use kyb.Brief.Sections.{Hit, is_open, incident_row}

-- One of the tags is that one, but for the case of ASCII letters.
abbrev pub IsTag : Text → List Text → Type 0
IsTag want [] = ⊥
IsTag want (t ∷ ts) = (eq_ignore_ascii_case t want ≡ true) ⊎ IsTag want ts

abbrev pub OfService : Option Text → Hit → Type 0
OfService none h = Unit
OfService (some s) h = (eq_ignore_ascii_case h.service s ≡ true) ⊎ IsTag s h.tags

-- Open or mitigated, with every tag of the scope, of its service by name or by tag, not archived.
pub record Qualifies (scope : Scope) (is_archived : Text → Bool) (h : Hit) : Type 0 where
  pub live : (h.status ≡ codes "open") ⊎ (h.status ≡ codes "mitigated")
  pub tagged : All (λ want. IsTag want h.tags) scope.tags
  pub of_service : OfService scope.service h
  pub kept : is_archived h.key ≡ false

-- A row tells what the hit says, and its age is counted from its start, or else from its detection, or
-- else from its commit.
pub record Reports (chrono : Chrono) (days_between : DateTime → DateTime → ℤ) (now : DateTime)
    (h : Hit) (row : IncidentRow) : Type 0 where
  pub key : row.key ≡ h.key
  pub title : row.title ≡ h.title
  pub service : row.service ≡ h.service
  pub severity : row.severity ≡ h.severity
  pub status : row.status ≡ h.status
  pub started : h.started_at ≢ [] → row.age_days ≡ age_days chrono days_between h.started_at now
  pub detected :
      h.started_at ≡ []
      → h.detected_at ≢ []
      → row.age_days ≡ age_days chrono days_between h.detected_at now
  pub committed :
      h.started_at ≡ []
      → h.detected_at ≡ []
      → h.committed_at ≢ []
      → row.age_days ≡ age_days chrono days_between h.committed_at now
  pub unknown : h.started_at ≡ [] → h.detected_at ≡ [] → h.committed_at ≡ [] → row.age_days ≡ none

to_IsTag : (want : Text) (tags : List Text) → has_tag tags want ≡ true → IsTag want tags
to_IsTag want [] h = absurd (ground arith)
to_IsTag want (t ∷ ts) h = elim (Bool-cases (eq_ignore_ascii_case t want)) [
  | inl e ↦ inl e
  | inr e ↦ inr (to_IsTag want ts (rw e at h))
]

of_IsTag : (want : Text) (tags : List Text) → IsTag want tags → has_tag tags want ≡ true
of_IsTag want [] i = absurd i
of_IsTag want (t ∷ ts) (inl e) = ground arith
of_IsTag want (t ∷ ts) (inr i) = ground (arith, of_IsTag want ts i)

to_tagged :
    (tags wanted : List Text)
    → all (has_tag tags) wanted ≡ true
    → All (λ want. IsTag want tags) wanted
to_tagged tags [] h = tt
to_tagged tags (w ∷ ws) h = (to_IsTag w tags (ground arith), to_tagged tags ws (ground arith))

of_tagged :
    (tags wanted : List Text)
    → All (λ want. IsTag want tags) wanted
    → all (has_tag tags) wanted ≡ true
of_tagged tags [] h = refl
of_tagged tags (w ∷ ws) (i, is) = ground (arith, of_IsTag w tags i, of_tagged tags ws is)

abbrev serves : Option Text → Hit → Bool
serves service h = is_none_or service (λ s. eq_ignore_ascii_case h.service s || has_tag h.tags s)

to_OfService : (service : Option Text) (h : Hit) → serves service h ≡ true → OfService service h
to_OfService none h e = tt
to_OfService (some s) h e = elim (Bool-cases (eq_ignore_ascii_case h.service s)) [
  | inl same ↦ inl same
  | inr other ↦ inr (to_IsTag s h.tags (ground arith))
]

of_OfService : (service : Option Text) (h : Hit) → OfService service h → serves service h ≡ true
of_OfService none h o = refl
of_OfService (some s) h (inl e) = ground arith
of_OfService (some s) h (inr i) = ground (arith, of_IsTag s h.tags i)

module _ (scope : Scope) (is_archived : Text → Bool) where
  is_open-Qualifies : (h : Hit) → is_open scope is_archived h ≡ true → Qualifies scope is_archived h
  unfolding is_open admits
  is_open-Qualifies h o = record {
    live = ground (arith, eq_iff h.status (codes "open"), eq_iff h.status (codes "mitigated"));
    tagged = to_tagged h.tags scope.tags (ground arith);
    of_service = to_OfService scope.service h (ground arith);
    kept = ground arith;
  }

  Qualifies-is_open : (h : Hit) → Qualifies scope is_archived h → is_open scope is_archived h ≡ true
  unfolding is_open admits
  Qualifies-is_open h q =
      let live = q.live in
      let kept = q.kept in
      ground (
        arith,
        eq_iff h.status (codes "open"),
        eq_iff h.status (codes "mitigated"),
        of_tagged h.tags scope.tags q.tagged,
        of_OfService scope.service h q.of_service,
      )

  pub retain-Qualifies :
      (hits : List Hit)
      → All (Qualifies scope is_archived) (retain (is_open scope is_archived) hits)
  retain-Qualifies [] = tt
  retain-Qualifies (h ∷ hs) = elim (Bool-cases (is_open scope is_archived h)) [
    | inl e ↦ rw e (is_open-Qualifies h e, retain-Qualifies hs)
    | inr e ↦ rw e (retain-Qualifies hs)
  ]

  pub retain-not-Qualifies :
      (hits : List Hit)
      → All
          (λ h. ¬ Qualifies scope is_archived h)
          (retain (λ h. not (is_open scope is_archived h)) hits)
  retain-not-Qualifies [] = tt
  retain-not-Qualifies (h ∷ hs) = elim (Bool-cases (is_open scope is_archived h)) [
    | inl e ↦ rw e (retain-not-Qualifies hs)
    | inr e ↦ rw e ((λ q. let o = Qualifies-is_open h q in ground arith), retain-not-Qualifies hs)
  ]

Perm-middle {ℓ} : {A : Type ℓ} (x : A) (xs ys : List A) → Perm (x ∷ xs ++ ys) (xs ++ x ∷ ys)
Perm-middle x [] ys = Perm.refl (x ∷ ys)
Perm-middle x (z ∷ xs) ys =
    Perm.trans (Perm.swap z x (xs ++ ys)) (Perm.cons z (Perm-middle x xs ys))

pub Perm-retain {ℓ} :
    {A : Type ℓ} (test : A → Bool) (xs : List A)
    → Perm xs (retain test xs ++ retain (λ x. not (test x)) xs)
Perm-retain test [] = Perm.refl []
Perm-retain test (x ∷ xs) = elim (Bool-cases (test x)) [
  | inl e ↦ rw e (Perm.cons x (Perm-retain test xs))
  | inr e ↦ rw e (Perm.trans (Perm.cons x (Perm-retain test xs)) (Perm-middle x _ _))
]

abbrev pub weight : Text → ℕ
weight severity =
    if severity == codes "critical"
    then 4
    else if severity == codes "high"
    then 3
    else if severity == codes "medium"
    then 2
    else if severity == codes "low"
    then 1
    else 0

abbrev pub liveness : Text → ℕ
liveness status = if status == codes "open" then 2 else if status == codes "mitigated" then 1 else 0

-- One age is more than the other; that of an incident without a known start is less than any.
abbrev pub Older : Option ℕ → Option ℕ → Type 0
Older (some a) (some b) = b < a
Older (some a) none = Unit
Older none b = ⊥

-- The more severe comes first; of the equally severe what is open before what is mitigated; of these
-- the older; and of these the one whose key comes first.
abbrev pub Precedes : IncidentRow → IncidentRow → Type 0
Precedes a b =
    (weight b.severity < weight a.severity)
    ⊎ ((weight a.severity ≡ weight b.severity)
        × ((liveness b.status < liveness a.status)
            ⊎ ((liveness a.status ≡ liveness b.status)
                × (Older a.age_days b.age_days
                    ⊎ ((a.age_days ≡ b.age_days) × (text_cmp a.key b.key ≢ Ordering.gt))))))

-- Every row precedes all later ones.
abbrev pub InOrder : List IncidentRow → Type 0
InOrder [] = Unit
InOrder (a ∷ rows) = All (Precedes a) rows × InOrder rows

eq_comm : (s t : Text) → (s == t) ≡ (t == s)
unfolding ◌==◌
eq_comm [] [] = refl
eq_comm [] (d ∷ t) = refl
eq_comm (c ∷ s) [] = refl
eq_comm (c ∷ s) (d ∷ t) = ground (arith, eq_comm s t)

weight-severity_rank : (s : Text) → weight s + severity_rank s ≡ 4
unfolding severity_rank rank
weight-severity_rank s = ground (
  arith,
  eq_comm s (codes "critical"),
  eq_comm s (codes "high"),
  eq_comm s (codes "medium"),
  eq_comm s (codes "low"),
)

liveness-rank : (s : Text) → liveness s + rank incident_statuses s ≡ 2
unfolding rank
liveness-rank s = ground (arith, eq_comm s (codes "open"), eq_comm s (codes "mitigated"))

-- The comparisons of two rows, on the numbers that they compare.
ranks-Precedes :
    (x y s t : ℕ) (p q : Option ℕ) (keys : Ordering)
    → then_cmp
        (then_cmp (then_cmp (compare x y) (compare s t)) (compare (option_rank q) (option_rank p)))
        keys
      ≢ Ordering.gt
    → (x < y) ⊎ ((x ≡ y) × ((s < t) ⊎ ((s ≡ t) × (Older p q ⊎ ((p ≡ q) × (keys ≢ Ordering.gt))))))
ranks-Precedes x y s t none none keys h = ground arith
ranks-Precedes x y s t none (some n) keys h = ground arith
ranks-Precedes x y s t (some m) none keys h = ground arith
ranks-Precedes x y s t (some m) (some n) keys h = ground arith

incident_order-Precedes : (a b : IncidentRow) → Le incident_order a b → Precedes a b
unfolding incident_order
incident_order-Precedes a b le =
    let sa = weight-severity_rank a.severity in
    let sb = weight-severity_rank b.severity in
    let la = liveness-rank a.status in
    let lb = liveness-rank b.status in
    let compared =
      ranks-Precedes (severity_rank a.severity) (severity_rank b.severity)
        (rank incident_statuses a.status) (rank incident_statuses b.status) a.age_days b.age_days
        (text_cmp a.key b.key) le in
    elim compared [
      | inl sev ↦ inl (omega arith)
      | inr (sev, inl stat) ↦ inr (omega arith, inl (omega arith))
      | inr (sev, inr (stat, later)) ↦ inr (omega arith, inr (omega arith, later))
    ]

All-Precedes :
    (a : IncidentRow) (rows : List IncidentRow)
    → All (Le incident_order a) rows
    → All (Precedes a) rows
All-Precedes a [] h = tt
All-Precedes a (b ∷ rows) (h, hs) = (incident_order-Precedes a b h, All-Precedes a rows hs)

pub IsSorted-InOrder : (rows : List IncidentRow) → IsSorted incident_order rows → InOrder rows
IsSorted-InOrder [] h = tt
IsSorted-InOrder (a ∷ rows) (h, hs) = (All-Precedes a rows h, IsSorted-InOrder rows hs)

module _ (chrono : Chrono) (days_between : DateTime → DateTime → ℤ) (now : DateTime) where
  incident_row-Reports :
      (h : Hit) → Reports chrono days_between now h (incident_row chrono days_between now h)
  unfolding incident_row
  incident_row-Reports h = record {
    key = refl;
    title = refl;
    service = refl;
    severity = refl;
    status = refl;
    started = λ a. ground arith;
    detected = λ a b. rw a (ground arith);
    committed = λ a b c. rw (a, b) (ground arith);
    unknown = λ a b c. rw (a, b, c) refl;
  }

  pub All-Reports :
      (hits : List Hit)
      → All (λ h. Reports chrono days_between now h (incident_row chrono days_between now h)) hits
  All-Reports [] = tt
  All-Reports (h ∷ hs) = (incident_row-Reports h, All-Reports hs)
