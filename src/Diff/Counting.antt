-- ===== src/Diff/Counting.antt =====
-- What the fallback of `line_diff` returns: how often each line is removed and added.
use kyb.Common.{
  ℕ, zero, suc, ◌+◌, ◌-◌, min, Bool, true, false, ◌≡◌, refl, ap, sym, ◌∙◌, inl, inr, List, [], ◌∷◌,
  Text, ◌==◌, eq_sound, ltb, if◌then◌else◌, Bool-cases, arith, subst,
}
use kyb.Common.Int.{ℤ, pos, negsuc, ltb_ℤ}
use kyb.Diff.{incr, decr, update, tally, pick, diff_counts}

-- How often a line occurs.
abbrev pub count : Text → List Text → ℕ
count x [] = 0
count x (l ∷ ls) = let more = count x ls in if l == x then suc more else more

-- `n - m` as an integer.
abbrev less : ℕ → ℕ → ℤ
less n zero = pos n
less zero (suc m) = negsuc m
less (suc n) (suc m) = less n m

incr-less : (n m : ℕ) → incr (less n m) ≡ less (suc n) m
incr-less n zero = refl
incr-less zero (suc zero) = refl
incr-less zero (suc (suc m)) = refl
incr-less (suc n) (suc m) = incr-less n m

decr-less : (n m : ℕ) → decr (less n m) ≡ less n (suc m)
decr-less zero zero = refl
decr-less (suc n) zero = refl
decr-less zero (suc m) = refl
decr-less (suc n) (suc m) = decr-less n m

over-less : (n m : ℕ) → ltb_ℤ (pos 0) (less n m) ≡ ltb m n
over-less n zero = ground arith
over-less zero (suc m) = ground arith
over-less (suc n) (suc m) = over-less n m ∙ ground arith

under-less : (n m : ℕ) → ltb_ℤ (less n m) (pos 0) ≡ ltb n m
under-less n zero = ground arith
under-less zero (suc m) = ground arith
under-less (suc n) (suc m) = under-less n m ∙ ground arith

update-same : (f : ℤ → ℤ) (l x : Text) (c : Text → ℤ) → l == x ≡ true → update f l c x ≡ f (c x)
update-same f l x c e = rw (e) refl

update-other : (f : ℤ → ℤ) (l x : Text) (c : Text → ℤ) → l == x ≡ false → update f l c x ≡ c x
update-other f l x c e = rw (e) refl

pub count-same : (x l : Text) (ls : List Text) → l == x ≡ true → count x (l ∷ ls) ≡ suc (count x ls)
count-same x l ls e = rw (e) refl

pub count-other : (x l : Text) (ls : List Text) → l == x ≡ false → count x (l ∷ ls) ≡ count x ls
count-other x l ls e = rw (e) refl

tally-incr :
    (x : Text) (ls : List Text) (c : Text → ℤ) (n m : ℕ)
    → c x ≡ less n m
    → tally incr ls c x ≡ less (n + count x ls) m
unfolding tally
tally-incr x [] c n m h = h ∙ ap (λ k. less k m) (omega arith)
tally-incr x (l ∷ ls) c n m h = elim (Bool-cases (l == x)) [
  | inl e ↦
      let here = update-same incr l x c e ∙ ap incr h ∙ incr-less n m in
      let counted = count-same x l ls e in
      tally-incr x ls (update incr l c) (suc n) m here ∙ ap (λ k. less k m) (omega arith)
  | inr e ↦
      let here = update-other incr l x c e ∙ h in
      let counted = count-other x l ls e in
      tally-incr x ls (update incr l c) n m here ∙ ap (λ k. less k m) (omega arith)
]

tally-decr :
    (x : Text) (ls : List Text) (c : Text → ℤ) (n m : ℕ)
    → c x ≡ less n m
    → tally decr ls c x ≡ less n (m + count x ls)
unfolding tally
tally-decr x [] c n m h = h ∙ ap (less n) (omega arith)
tally-decr x (l ∷ ls) c n m h = elim (Bool-cases (l == x)) [
  | inl e ↦
      let here = update-same decr l x c e ∙ ap decr h ∙ decr-less n m in
      let counted = count-same x l ls e in
      tally-decr x ls (update decr l c) n (suc m) here ∙ ap (less n) (omega arith)
  | inr e ↦
      let here = update-other decr l x c e ∙ h in
      let counted = count-other x l ls e in
      tally-decr x ls (update decr l c) n m here ∙ ap (less n) (omega arith)
]

pick-chosen :
    (test : ℤ → Bool) (f : ℤ → ℤ) (l : Text) (ls : List Text) (c : Text → ℤ)
    → test (c l) ≡ true
    → pick test f (l ∷ ls) c
      ≡ (l ∷ (pick test f ls (update f l c)).0, (pick test f ls (update f l c)).1)
unfolding pick
pick-chosen test f l ls c e = rw (e) refl

pick-passed :
    (test : ℤ → Bool) (f : ℤ → ℤ) (l : Text) (ls : List Text) (c : Text → ℤ)
    → test (c l) ≡ false
    → pick test f (l ∷ ls) c ≡ pick test f ls c
unfolding pick
pick-passed test f l ls c e = rw (e) refl

-- The two loops alike: `at n m` is the count of a line of which `n - m` are still to be picked.
module _ (test : ℤ → Bool) (f : ℤ → ℤ) (at : ℕ → ℕ → ℤ)
    (f-at : (n m : ℕ) → f (at n m) ≡ at n (suc m))
    (test-at : (n m : ℕ) → test (at n m) ≡ ltb m n) where
  -- What is picked of a line, and the count that is left.
  abbrev Picked : Text → ℕ → ℕ → ℕ → List Text × (Text → ℤ) → Type 0
  Picked x n m available (ls, c) =
      let k = min (n - m) available in (count x ls ≡ k) × (c x ≡ at n (m + k))

  pick-Picked :
      (x : Text) (ls : List Text) (c : Text → ℤ) (n m : ℕ)
      → c x ≡ at n m
      → Picked x n m (count x ls) (pick test f ls c)
  unfolding pick
  pick-Picked x [] c n m h = (omega arith, h ∙ ap (at n) (omega arith))
  pick-Picked x (l ∷ ls) c n m h =
      let chosen =
        λ (k : ℕ) (eq : update f l c x ≡ at n k). pick-Picked x ls (update f l c) n k eq in
      let passed = pick-Picked x ls c n m h in
      elim (Bool-cases (test (c l))) [
        | inl t ↦
            subst (Picked x n m (count x (l ∷ ls))) (sym (pick-chosen test f l ls c t))
              (elim (Bool-cases (l == x)) [
                | inl e ↦
                    let is_left : ltb m n ≡ true =
                      sym (test-at n m)
                      ∙ ap test (sym h)
                      ∙ ap (λ z. test (c z)) (sym (eq_sound l x e))
                      ∙ t in
                    let (some, left) = chosen (suc m) (update-same f l x c e ∙ ap f h ∙ f-at n m) in
                    let counted = count-same x l ls e in
                    let counted' = count-same x l (pick test f ls (update f l c)).0 e in
                    (ground arith, left ∙ ap (at n) (ground arith))
                | inr e ↦
                    let (some, left) = chosen m (update-other f l x c e ∙ h) in
                    let counted = count-other x l ls e in
                    let counted' = count-other x l (pick test f ls (update f l c)).0 e in
                    (ground arith, left ∙ ap (at n) (ground arith))
              ])
        | inr t ↦
            subst (Picked x n m (count x (l ∷ ls))) (sym (pick-passed test f l ls c t))
              (elim (Bool-cases (l == x)) [
                | inl e ↦
                    let none_left : ltb m n ≡ false =
                      sym (test-at n m)
                      ∙ ap test (sym h)
                      ∙ ap (λ z. test (c z)) (sym (eq_sound l x e))
                      ∙ t in
                    let counted = count-same x l ls e in
                    (passed.0 ∙ ground arith, passed.1 ∙ ap (at n) (ground arith))
                | inr e ↦
                    let counted = count-other x l ls e in
                    (passed.0 ∙ ground arith, passed.1 ∙ ap (at n) (ground arith))
              ])
      ]

-- Of each line, `diff_counts` removes as many as the first body has more than the second, and adds
-- as many as the second has more than the first.
pub diff_counts_lem :
    (a b : List Text) (x : Text)
    → (count x ((diff_counts a b).removed) ≡ count x a - count x b)
      × (count x ((diff_counts a b).added) ≡ count x b - count x a)
unfolding diff_counts
diff_counts_lem a b x =
    let counts = tally decr b (tally incr a (λ l. pos 0)) in
    let start : counts x ≡ less (count x a) (count x b) =
      tally-decr x b (tally incr a (λ l. pos 0)) (count x a) 0
        (tally-incr x a (λ l. pos 0) 0 0 refl ∙ ap (λ k. less k 0) (omega arith))
      ∙ ap (less (count x a)) (omega arith) in
    let (removed, left) =
      pick-Picked (ltb_ℤ (pos 0)) decr less decr-less over-less x a counts (count x a) (count x b)
        start in
    let picked = pick (ltb_ℤ (pos 0)) decr a counts in
    let (added, _) =
      pick-Picked (λ n. ltb_ℤ n (pos 0)) incr (λ n m. less m n) (λ n m. incr-less m n)
        (λ n m. under-less m n) x b picked.1 (count x b + min (count x a - count x b) (count x a))
        (count x a) left in
    (removed ∙ omega arith, added ∙ omega arith)
