-- ===== src/Store/Extending.antt =====
-- That a history index that is extended is the one that is built anew.
use kyb.Common.{
  true, false, ◌≡◌, refl, sym, ap, ◌∙◌, inl, inr, none, some, List, [], ◌∷◌, ◌++◌, Text, ◌==◌,
  eq_refl, any, Bool-cases, arith,
}
use kyb.Store.History.{
  Change, CommitInfo, VersionInfo, HistoryIndex, changes_of, moved, version_info, push,
  push_changes, walk, until, in_history, history_index,
}

append_assoc : {A : Type 0} (xs ys zs : List A) → (xs ++ ys) ++ zs ≡ xs ++ (ys ++ zs)
append_assoc [] ys zs = refl
append_assoc (x ∷ xs) ys zs = ap (λ l. x ∷ l) (append_assoc xs ys zs)

append_nil : {A : Type 0} (xs : List A) → xs ++ [] ≡ xs
append_nil [] = refl
append_nil (x ∷ xs) = ap (λ l. x ∷ l) (append_nil xs)

-- Two maps of which one has more in front at a key.
abbrev Behind :
    Text → List VersionInfo → (Text → List VersionInfo) → (Text → List VersionInfo) → Type 0
Behind k front f g = f k ≡ front ++ g k

push-Behind :
    (key : Text) (v : VersionInfo) (k : Text) (front : List VersionInfo)
    (f g : Text → List VersionInfo)
    → Behind k front f g
    → Behind k front (push key v f) (push key v g)
push-Behind key v k front f g h = elim (Bool-cases (key == k)) [
  | inl e ↦ rw (e, h) (append_assoc front (g k) (v ∷ []))
  | inr e ↦ rw e h
]

push_changes-Behind :
    (c : CommitInfo) (changes rest : List (Text × Change)) (k : Text) (front : List VersionInfo)
    (f g : Text → List VersionInfo)
    → Behind k front f g
    → Behind k front (push_changes c changes rest f) (push_changes c changes rest g)
unfolding push_changes
push_changes-Behind c changes [] k front f g h = h
push_changes-Behind c changes ((key, change) ∷ rest) k front f g h =
    elim (Bool-cases (moved changes key)) [
      | inl e ↦ rw e (push_changes-Behind c changes rest k front f g h)
      | inr e ↦
          let v = version_info c change in
          rw e (
            push_changes-Behind c changes rest k front (push key v f) (push key v g)
              (push-Behind key v k front f g h))
    ]

walk-Behind :
    (cs : List CommitInfo) (k : Text) (front : List VersionInfo) (f g : Text → List VersionInfo)
    → Behind k front f g
    → Behind k front (walk cs f) (walk cs g)
unfolding walk
walk-Behind [] k front f g h = h
walk-Behind (c ∷ cs) k front f g h =
    let changes = changes_of c.deltas in
    walk-Behind cs k front (push_changes c changes changes f) (push_changes c changes changes g)
      (push_changes-Behind c changes changes k front f g h)

walk_append :
    (newer older : List CommitInfo) (f : Text → List VersionInfo)
    → walk (newer ++ older) f ≡ walk older (walk newer f)
unfolding walk
walk_append [] older f = refl
walk_append (c ∷ newer) older f =
    walk_append newer older (push_changes c (changes_of c.deltas) (changes_of c.deltas) f)

-- What a walk finds in the newer commits stands in front of what it finds in the older ones.
walk_since :
    (newer older : List CommitInfo) (k : Text)
    → walk (newer ++ older) (λ j. []) k ≡ walk newer (λ j. []) k ++ walk older (λ j. []) k
walk_since newer older k =
    ap (λ f. f k) (walk_append newer older (λ j. []))
    ∙ walk-Behind older k (walk newer (λ j. []) k) (walk newer (λ j. [])) (λ j. [])
        (sym (append_nil (walk newer (λ j. []) k)))

until-append :
    (newer older : List CommitInfo) (c : CommitInfo)
    → in_history c.sha newer ≡ false
    → until c.sha (newer ++ (c ∷ older)) ≡ newer
unfolding until in_history
until-append [] older c h = rw (eq_refl c.sha) refl
until-append (n ∷ newer) older c h =
    let apart : n.sha == c.sha ≡ false = ground (arith, h) in
    let later : any (λ d. d.sha == c.sha) newer ≡ false = ground (arith, h) in
    rw apart (ap (λ l. n ∷ l) (until-append newer older c later))

in_history-append :
    (newer older : List CommitInfo) (c : CommitInfo)
    → in_history c.sha (newer ++ (c ∷ older)) ≡ true
unfolding in_history
in_history-append [] older c = rw (eq_refl c.sha) refl
in_history-append (n ∷ newer) older c =
    let later = in_history-append newer older c in ground (arith, later)

pub first_apart :
    (n : CommitInfo) (newer : List CommitInfo) (c : CommitInfo)
    → in_history c.sha (n ∷ newer) ≡ false
    → n.sha == c.sha ≡ false
unfolding in_history
first_apart n newer c h = ground (arith, h)

extended :
    (newer older : List CommitInfo) (c : CommitInfo) (k : Text)
    → in_history c.sha newer ≡ false
    → ((history_index (some (history_index none (c ∷ older))) (newer ++ (c ∷ older))).by_key k
        ≡ (history_index none (newer ++ (c ∷ older))).by_key k)
      × ((history_index (some (history_index none (c ∷ older))) (newer ++ (c ∷ older))).head
          ≡ (history_index none (newer ++ (c ∷ older))).head)
unfolding history_index
extended [] older c k h =
    let there = in_history-append [] older c in
    let same = eq_refl c.sha in (rw (there, same) refl, rw (there, same) refl)
extended (n ∷ newer) older c k h =
    let there = in_history-append (n ∷ newer) older c in
    let apart : n.sha == c.sha ≡ false = first_apart n newer c h in
    let hidden = until-append (n ∷ newer) older c h in
    (rw (there, apart, hidden) (sym (walk_since (n ∷ newer) (c ∷ older) k)), rw (there, apart) refl)

-- An index whose head is not in the history is discarded.
pub stale :
    (p : HistoryIndex) (old : Text) (log : List CommitInfo)
    → p.head ≡ some old
    → in_history old log ≡ false
    → history_index (some p) log ≡ history_index none log
unfolding history_index
stale p old [] h gone = refl
stale p old (c ∷ cs) h gone = rw (h, gone) refl

index_path : (a b : HistoryIndex) → a.head ≡ b.head → ((k : Text) → a.by_key k ≡ b.by_key k) → a ≡ b
index_path a b h v = λ i. record { head = h i; by_key = λ k. v k i }

-- An index that is extended from that of an older head by the commits since, none of which has the
-- sha of that head, is the index that is built from the whole history.
pub history_index_lem :
    (newer older : List CommitInfo) (c : CommitInfo)
    → in_history c.sha newer ≡ false
    → history_index (some (history_index none (c ∷ older))) (newer ++ (c ∷ older))
      ≡ history_index none (newer ++ (c ∷ older))
history_index_lem newer older c h =
    let log = newer ++ (c ∷ older) in
    index_path (history_index (some (history_index none (c ∷ older))) log) (history_index none log)
      (extended newer older c [] h).1 (λ k. (extended newer older c k h).0)
