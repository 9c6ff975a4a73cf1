-- ===== src/AsOf/Numbers.antt =====
-- What one more document and one more retraction do to the current version of a key.
use kyb.Common.{
  ℕ, suc, ◌+◌, ◌≤◌, Bool, true, false, ◌&&◌, ◌||◌, ◌≡◌, refl, ap, ◌∙◌, inl, inr, Option, none, some,
  List, [], ◌∷◌, ◌++◌, length, Text, ◌==◌, ltb, leb, if◌then◌else◌, Bool-cases, All, arith,
  some_same, none_not_some,
}
use kyb.Common.Int.{ℤ, leb_ℤ}
use kyb.Store.Walk.{HistoryDoc, Retraction}
use kyb.AsOf.{number, is_candidate, newer_of, newest, is_outranked}

number-append :
    (n : ℕ) (ds : List HistoryDoc) (d : HistoryDoc)
    → number n (ds ++ (d ∷ [])) ≡ number n ds ++ ((suc (n + length ds), d) ∷ [])
unfolding number
number-append n [] d = ap (λ z. (z, d) ∷ []) (omega arith)
number-append n (x ∷ ds) d =
    ap (λ l. (suc n, x) ∷ l)
      (number-append (suc n) ds d ∙ ap (λ z. number (suc n) ds ++ ((z, d) ∷ [])) (omega arith))

newest-append :
    (key : Text) (at : ℤ) (ds : List (ℕ × HistoryDoc)) (seq : ℕ) (d : HistoryDoc)
    (best : Option (ℕ × HistoryDoc))
    → newest key at none (ds ++ ((seq, d) ∷ [])) best ≡ (
        if is_candidate key at none d
        then newer_of (seq, d) (newest key at none ds best)
        else newest key at none ds best)
unfolding newest
newest-append key at [] seq d best = refl
newest-append key at ((s, x) ∷ ds) seq d best =
    newest-append key at ds seq d
      (if is_candidate key at none x then newer_of (s, x) best else best)

newer_of_bound :
    (n : ℕ) (d : HistoryDoc) (best : Option (ℕ × HistoryDoc))
    → ((y : ℕ × HistoryDoc) → best ≡ some y → y.0 ≤ n)
    → (y : ℕ × HistoryDoc) → newer_of (suc n, d) best ≡ some y
    → y.0 ≤ suc n
newer_of_bound n d none small y h = let same = ap (λ z. z.0) (some_same h) in omega (arith, same)
newer_of_bound n d (some z) small y h =
    let b = small z refl in
    elim (Bool-cases (ltb z.0 (suc n))) [
      | inl c ↦ let same = ap (λ w. w.0) (some_same (rw c at h)) in omega (arith, same)
      | inr c ↦ let same = ap (λ w. w.0) (some_same (rw c at h)) in omega (arith, same, b)
    ]

step_bound :
    (c : Bool) (n : ℕ) (d : HistoryDoc) (best : Option (ℕ × HistoryDoc))
    → ((y : ℕ × HistoryDoc) → best ≡ some y → y.0 ≤ n)
    → (y : ℕ × HistoryDoc) → (if c then newer_of (suc n, d) best else best) ≡ some y
    → y.0 ≤ suc n
step_bound true n d best small y h = newer_of_bound n d best small y h
step_bound false n d best small y h = let b = small y h in omega (arith, b)

-- The number of the newest document is at most that of the last one.
pub newest_bound :
    (key : Text) (at : ℤ) (n : ℕ) (ds : List HistoryDoc) (best : Option (ℕ × HistoryDoc))
    (x : ℕ × HistoryDoc)
    → ((y : ℕ × HistoryDoc) → best ≡ some y → y.0 ≤ n)
    → newest key at none (number n ds) best ≡ some x
    → x.0 ≤ n + length ds
unfolding newest number
newest_bound key at n [] best x small h = let b = small x h in omega (arith, b)
newest_bound key at n (d ∷ ds) best x small h =
    let best' = if is_candidate key at none d then newer_of (suc n, d) best else best in
    let b =
      newest_bound key at (suc n) ds best' x
        (step_bound (is_candidate key at none d) n d best small) h in
    omega (arith, b)

-- A document more.
pub current-append :
    (key : Text) (at : ℤ) (ds : List HistoryDoc) (d : HistoryDoc)
    → newest key at none (number 0 (ds ++ (d ∷ []))) none ≡ (
        if is_candidate key at none d
        then some (suc (length ds), d)
        else newest key at none (number 0 ds) none)
current-append key at ds d =
    let last = suc (length ds) in
    let best = newest key at none (number 0 ds) none in
    let from_zero : suc (0 + length ds) ≡ last = omega arith in
    ap (λ l. newest key at none l none)
      (number-append 0 ds d ∙ ap (λ z. number 0 ds ++ ((z, d) ∷ [])) from_zero)
    ∙ newest-append key at (number 0 ds) last d none
    ∙ ap (λ z. if is_candidate key at none d then z else best)
        (wins best
          (λ y e. let b = newest_bound key at 0 ds none y none_small e in omega (arith, b)))
  where
    none_small : (y : ℕ × HistoryDoc) → none ≡ some y → y.0 ≤ 0
    none_small y e = absurd (none_not_some e)

    wins :
        (best : Option (ℕ × HistoryDoc))
        → ((y : ℕ × HistoryDoc) → best ≡ some y → y.0 ≤ length ds)
        → newer_of (suc (length ds), d) best ≡ some (suc (length ds), d)
    wins none small = refl
    wins (some y) small = let b = small y refl in ground (arith, b)

-- A retraction more.
pub is_outranked-append :
    (key : Text) (at : ℤ) (rs : List Retraction) (r : Retraction) (seq : ℕ)
    → is_outranked key at (rs ++ (r ∷ [])) seq ≡ (
        is_outranked key at rs seq
        || (r.key == key && (leb_ℤ r.committed_at at && leb seq r.after)))
unfolding is_outranked
is_outranked-append key at [] r seq = ground arith
is_outranked-append key at (x ∷ rs) r seq =
    let later = is_outranked-append key at rs r seq in ground (arith, later)

-- No retraction outranks a document that is numbered after all of them.
pub is_outranked_above :
    (key : Text) (at : ℤ) (rs : List Retraction) (n : ℕ)
    → All (λ r. r.after ≤ n) rs
    → is_outranked key at rs (suc n) ≡ false
unfolding is_outranked
is_outranked_above key at [] n h = refl
is_outranked_above key at (r ∷ rs) n (b, bs) =
    let later = is_outranked_above key at rs n bs in
    let above : leb (suc n) r.after ≡ false = ground (arith, b) in ground (arith, later, above)
