-- ===== src/Keys/Distance.antt =====
-- `edit_distance_within` against the recursion of the Levenshtein distance.
use kyb.Common.{
  ℕ, suc, ◌+◌, ◌-◌, ◌<◌, ◌≤◌, min, ◌≡◌, inl, inr, refl, ap, Option, none, some, List, [], ◌∷◌, Text,
  length, eqb, leb, ltb, if◌then◌else◌, All, Bool-cases, arith, subst, ltb→lt,
}
use kyb.Diff.{get_or}
use kyb.Keys.{first_row, next_row, least, last_row, within, edit_distance_within}

-- The Levenshtein distance: deleting, inserting and replacing a character cost one each.
unfoldable pub lev : Text → Text → ℕ
lev [] t = length t
lev (x ∷ s) [] = suc (length s)
lev (x ∷ s) (y ∷ t) =
    let less_x = lev s (y ∷ t) in
    let less_y = lev (x ∷ s) t in
    let less_both = lev s t in
    min (min (suc less_x) (suc less_y)) (less_both + (if eqb x y then 0 else 1))

-- The characters of the first text from last to first, before the second text.
abbrev pub reverse_onto : Text → Text → Text
reverse_onto [] t = t
reverse_onto (c ∷ s) t = reverse_onto s (c ∷ t)

-- The row of a prefix of `a`: its distances from the prefixes of `b`, all of them reversed, from the
-- prefix `rb` on.
cells : Text → Text → Text → List ℕ
cells ra rb [] = lev ra rb ∷ []
cells ra rb (y ∷ b) = lev ra rb ∷ cells ra (y ∷ rb) b

first_row-cells : (rb b : Text) → first_row (length rb) b ≡ cells [] rb b
unfolding first_row cells lev
first_row-cells rb [] = refl
first_row-cells rb (y ∷ b) = ap (λ row. length rb ∷ row) (first_row-cells (y ∷ rb) b)

cells-head : (ra rb b : Text) → get_or (cells ra rb b) 0 0 ≡ lev ra rb
unfolding cells
cells-head ra rb [] = refl
cells-head ra rb (y ∷ b) = refl

lev-step :
    (x y : ℕ) (s t : Text)
    → lev (x ∷ s) (y ∷ t)
      ≡ min (min (suc (lev s (y ∷ t))) (suc (lev (x ∷ s) t))) (lev s t + (if eqb x y then 0 else 1))
unfolding lev
lev-step x y s t = refl

next_row-cells :
    (x : ℕ) (ra rb b : Text)
    → lev (x ∷ ra) rb ∷ next_row x b (cells ra rb b) (lev (x ∷ ra) rb) ≡ cells (x ∷ ra) rb b
unfolding next_row cells
next_row-cells x ra rb [] = refl
next_row-cells x ra rb (y ∷ b) =
    rw (cells-head ra (y ∷ rb) b, ← lev-step x y ra rb)
      (ap (λ row. lev (x ∷ ra) rb ∷ row) (next_row-cells x ra (y ∷ rb) b))

cells-last : (ra rb b : Text) → get_or (cells ra rb b) (length b) 0 ≡ lev ra (reverse_onto b rb)
unfolding cells
cells-last ra rb [] = refl
cells-last ra rb (y ∷ b) = cells-last ra (y ∷ rb) b

-- A row that is beyond the cap as a whole stays there.
Above : ℕ → Text → Text → Text → Type 0
Above cap ra rb b = All (λ n. cap < n) (cells ra rb b)

least-All :
    (cap best : ℕ) (ns : List ℕ) → cap < least best ns → (cap < best) × All (λ n. cap < n) ns
unfolding least
least-All cap best [] h = (h, tt)
least-All cap best (n ∷ ns) h =
    let (first, later) = least-All cap (min best n) ns h in (omega arith, (omega arith, later))

Above-head : (cap : ℕ) (ra rb b : Text) → Above cap ra rb b → cap < lev ra rb
unfolding Above cells
Above-head cap ra rb [] (h, hs) = h
Above-head cap ra rb (y ∷ b) (h, hs) = h

Above-next :
    (cap x : ℕ) (ra rb b : Text)
    → Above cap ra rb b
    → cap < lev (x ∷ ra) rb
    → Above cap (x ∷ ra) rb b
unfolding Above cells
Above-next cap x ra rb [] h k = (k, tt)
Above-next cap x ra rb (y ∷ b) (h, hs) k =
    let above = Above-head cap ra (y ∷ rb) b hs in
    let step = lev-step x y ra rb in (k, Above-next cap x ra (y ∷ rb) b hs (ground arith))

Above-last : (cap : ℕ) (ra rb b : Text) → Above cap ra rb b → cap < lev ra (reverse_onto b rb)
unfolding Above cells
Above-last cap ra rb [] (h, hs) = h
Above-last cap ra rb (y ∷ b) (h, hs) = Above-last cap ra (y ∷ rb) b hs

lev-nil : (s : Text) → lev s [] ≡ length s
unfolding lev
lev-nil [] = refl
lev-nil (x ∷ s) = refl

Above-all :
    (cap : ℕ) (a ra b : Text)
    → Above cap ra [] b
    → cap < length ra
    → cap < lev (reverse_onto a ra) (reverse_onto b [])
Above-all cap [] ra b h k = Above-last cap ra [] b h
Above-all cap (x ∷ a) ra b h k =
    Above-all cap a (x ∷ ra) b (Above-next cap x ra [] b h (rw (lev-nil (x ∷ ra)) (omega arith)))
      (omega arith)

-- What the loop over i comes to: the last row, or a distance beyond the cap.
Ends : ℕ → Text → Text → Text → Option (List ℕ) → Type 0
Ends cap a ra b none = cap < lev (reverse_onto a ra) (reverse_onto b [])
Ends cap a ra b (some row) = row ≡ cells (reverse_onto a ra) [] b

cells-next :
    (x : ℕ) (ra b : Text)
    → suc (length ra) ∷ next_row x b (cells ra [] b) (suc (length ra)) ≡ cells (x ∷ ra) [] b
cells-next x ra b = let step = next_row-cells x ra [] b in rw (← lev-nil (x ∷ ra)) step

abandoned :
    (cap x : ℕ) (a ra b : Text)
    → cap < least (suc (length ra)) (next_row x b (cells ra [] b) (suc (length ra)))
    → cap < lev (reverse_onto a (x ∷ ra)) (reverse_onto b [])
unfolding Above
abandoned cap x a ra b h =
    let (first, others) = least-All cap _ _ h in
    Above-all cap a (x ∷ ra) b (subst (All (λ n. cap < n)) (cells-next x ra b) (first, others))
      first

last_row-Ends :
    (cap : ℕ) (a ra b : Text) → Ends cap a ra b (last_row cap (length ra) a b (cells ra [] b))
unfolding last_row Ends
last_row-Ends cap [] ra b = refl
last_row-Ends cap (x ∷ a) ra b =
    let later = last_row-Ends cap a (x ∷ ra) b in
    let row = next_row x b (cells ra [] b) (suc (length ra)) in
    elim (Bool-cases (ltb cap (least (suc (length ra)) row))) [
      | inl e ↦ rw e (abandoned cap x a ra b (ltb→lt _ _ e))
      | inr e ↦ rw (e, cells-next x ra b) later
    ]

-- Texts whose lengths differ are as far apart.
lev-length : (s t : Text) → (length s ≤ lev s t + length t) × (length t ≤ lev s t + length s)
unfolding lev
lev-length [] t = (omega arith, omega arith)
lev-length (x ∷ s) [] = (omega arith, omega arith)
lev-length (x ∷ s) (y ∷ t) =
    let less_x = lev-length s (y ∷ t) in
    let less_y = lev-length (x ∷ s) t in
    let less_both = lev-length s t in let step = lev-step x y s t in (ground arith, ground arith)

length-reverse_onto : (s t : Text) → length (reverse_onto s t) ≡ length s + length t
length-reverse_onto [] t = omega arith
length-reverse_onto (c ∷ s) t = let later = length-reverse_onto s (c ∷ t) in omega arith

within-Ends :
    (cap : ℕ) (a b : Text) (o : Option (List ℕ))
    → Ends cap a [] b o
    → let d = lev (reverse_onto a []) (reverse_onto b []) in
      within cap b o ≡ (if leb d cap then some d else none)
unfolding Ends
within-Ends cap a b none h = ground arith
within-Ends cap a b (some row) h = rw (h, cells-last (reverse_onto a []) [] b) refl

-- `edit_distance_within` finds the Levenshtein distance of two texts, read from their ends, if it is
-- at most the cap, and nothing otherwise: what it abandons is out of reach.
pub edit_distance_within_lem :
    (a b : Text) (cap : ℕ)
    → let d = lev (reverse_onto a []) (reverse_onto b []) in
      edit_distance_within a b cap ≡ (if leb d cap then some d else none)
unfolding edit_distance_within
edit_distance_within_lem a b cap =
    let row_first = first_row-cells [] b in
    let found =
      within-Ends cap a b (last_row cap 0 a b (first_row 0 b))
        (rw row_first (last_row-Ends cap a [] b)) in
    let far = lev-length (reverse_onto a []) (reverse_onto b []) in
    let length_a = length-reverse_onto a [] in
    let length_b = length-reverse_onto b [] in
    elim (Bool-cases (ltb cap ((length a - length b) + (length b - length a)))) [
      | inl e ↦ rw e (ground arith)
      | inr e ↦ rw e found
    ]
