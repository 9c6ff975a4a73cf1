-- ===== src/Deadline/Blocks.antt =====
-- The block of a response: what it counts, in which order, and what a cut may leave out.
use kyb.Common.{
  ℕ, suc, zero, ◌+◌, ◌-◌, ◌≤◌, Bool, true, false, not, ◌≡◌, refl, ap, sym, ◌∙◌, inl, inr, some,
  Text, arith, List, [], ◌∷◌, Bool-cases, All, length, take, retain, Ordering, length-take, any,
  text_cmp,
}
use mathlib.Core.List.{Perm}
use mathlib.Core.List.Perm
use kyb.Common.Orders.{
  IsOrder, then_cmp, bool_cmp, then-IsOrder, on-IsOrder, reversed-IsOrder, bool_cmp-IsOrder,
  cmp_ℤ-IsOrder, text_cmp-IsOrder,
}
use kyb.Common.Sorts.{
  sort_by, Le, IsSorted, sort_by-perm, sort_by-IsSorted, sort_by-stable, length-sort_by,
  count-sort_by,
}
use kyb.Common.Int.{cmp_ℤ}
use kyb.Deadline.Items.{Clock, Item, Block, surfaced, in_scope, urgency, sort, area, ordered, block}

urgency-IsOrder : IsOrder urgency
unfolding urgency
urgency-IsOrder =
    then-IsOrder _ (λ a b. text_cmp a.key b.key)
      (then-IsOrder _ (λ a b. cmp_ℤ a.days_left b.days_left)
        (then-IsOrder (λ a b. bool_cmp b.overdue a.overdue) (λ a b. bool_cmp b.hard a.hard)
          (reversed-IsOrder (on-IsOrder bool_cmp-IsOrder (λ (i : Item). i.overdue)))
          (reversed-IsOrder (on-IsOrder bool_cmp-IsOrder (λ (i : Item). i.hard))))
        (on-IsOrder cmp_ℤ-IsOrder (λ (i : Item). i.days_left)))
      (on-IsOrder text_cmp-IsOrder (λ (i : Item). i.key))

area-IsOrder : (scope : List Text) → IsOrder (area scope)
unfolding area
area-IsOrder scope =
    then-IsOrder (λ a b. bool_cmp (not a.overdue) (not b.overdue))
      (λ a b. bool_cmp (not (in_scope scope a)) (not (in_scope scope b)))
      (on-IsOrder bool_cmp-IsOrder (λ (i : Item). not i.overdue))
      (on-IsOrder bool_cmp-IsOrder (λ i. not (in_scope scope i)))

-- The order of a response for a scope: by lateness and area first, and by urgency among equals.
abbrev pub response_order : List Text → Item → Item → Ordering
response_order [] a b = urgency a b
response_order (s ∷ scope) a b = then_cmp (area (s ∷ scope) a b) (urgency a b)

-- What is surfaced, all of it and no more, in the order of the response.
pub ordered_lem :
    (items : List Item) (scope : List Text)
    → Perm (ordered items scope) (retain surfaced items)
      × IsSorted (response_order scope) (ordered items scope)
unfolding ordered sort
ordered_lem items [] = (
  sort_by-perm urgency (retain surfaced items),
  sort_by-IsSorted urgency urgency-IsOrder (retain surfaced items),
)
ordered_lem items (s ∷ scope) = (
  Perm.trans (sort_by-perm (area (s ∷ scope)) (sort_by urgency (retain surfaced items)))
      (sort_by-perm urgency (retain surfaced items)),
  sort_by-stable (area (s ∷ scope)) urgency (area-IsOrder (s ∷ scope)) urgency-IsOrder _
      (sort_by-IsSorted urgency urgency-IsOrder (retain surfaced items)),
)

-- What stands behind an item that is not late is not late either.
late_first :
    (scope : List Text) (a b : Item)
    → Le (response_order scope) a b
    → a.overdue ≡ false
    → b.overdue ≡ false
unfolding urgency area
late_first [] a b h e = elim (Bool-cases b.overdue) [ inl f ↦ absurd (h (rw (e, f))) | inr f ↦ f ]
late_first (s ∷ scope) a b h e = elim (Bool-cases b.overdue) [
  | inl f ↦ absurd (h (rw (e, f)))
  | inr f ↦ f
]

none_late :
    (scope : List Text) (a : Item) (xs : List Item)
    → All (Le (response_order scope) a) xs
    → a.overdue ≡ false
    → length (retain (λ i. i.overdue) xs) ≡ 0
none_late scope a [] h e = refl
none_late scope a (x ∷ xs) (h, hs) e = rw (late_first scope a x h e) (none_late scope a xs hs e)

count-take-le :
    (test : Item → Bool) (n : ℕ) (xs : List Item)
    → length (retain test (take n xs)) ≤ length (retain test xs)
count-take-le test zero xs = omega arith
count-take-le test (suc n) [] = omega arith
count-take-le test (suc n) (x ∷ xs) = ground (arith, count-take-le test n xs)

-- A cut that still shows an item which is not late shows every late one.
cut_shows_late :
    (scope : List Text) (n : ℕ) (xs : List Item)
    → IsSorted (response_order scope) xs
    → any (λ i. not i.overdue) (take n xs) ≡ true
    → length (retain (λ i. i.overdue) (take n xs)) ≡ length (retain (λ i. i.overdue) xs)
cut_shows_late scope zero xs s h = ground arith
cut_shows_late scope (suc n) [] s h = refl
cut_shows_late scope (suc n) (x ∷ xs) (s, ss) h = elim (Bool-cases x.overdue) [
  | inl e ↦ ground (arith, cut_shows_late scope n xs ss)
  | inr e ↦ ground (arith, none_late scope x xs s e, count-take-le (λ (i : Item). i.overdue) n xs)
]

late_surfaced :
    (items : List Item)
    → length (retain (λ i. i.overdue) (retain surfaced items))
      ≡ length (retain (λ i. i.overdue) items)
unfolding surfaced
late_surfaced [] = refl
late_surfaced (i ∷ items) = ground (arith, late_surfaced items)

count-ordered :
    (test : Item → Bool) (items : List Item) (scope : List Text)
    → length (retain test (ordered items scope)) ≡ length (retain test (retain surfaced items))
unfolding ordered sort
count-ordered test items [] = count-sort_by urgency test (retain surfaced items)
count-ordered test items (s ∷ scope) =
    count-sort_by (area (s ∷ scope)) test (sort_by urgency (retain surfaced items))
    ∙ count-sort_by urgency test (retain surfaced items)

length-ordered :
    (items : List Item) (scope : List Text)
    → length (ordered items scope) ≡ length (retain surfaced items)
unfolding ordered sort
length-ordered items [] = length-sort_by urgency (retain surfaced items)
length-ordered items (s ∷ scope) =
    length-sort_by (area (s ∷ scope)) (sort_by urgency (retain surfaced items))
    ∙ length-sort_by urgency (retain surfaced items)

record Cut (all_items : List Item) (b : Block) : Type 0 where
  pub items : b.items ≡ take 5 all_items
  pub count : b.count ≡ length all_items
  pub overdue : b.overdue ≡ length (retain (λ i. i.overdue) all_items)
  pub more : b.more ≡ length all_items - length (take 5 all_items)

block-Cut :
    (items : List Item) (clock : Clock) (scope : List Text) (b : Block)
    → block items clock scope ≡ some b
    → Cut (ordered items scope) b
unfolding block
block-Cut items clock scope b h = ground arith

-- A block lists the first five of the surfaced items in the order of the response. It counts all
-- that are surfaced and all that are late, says how many it leaves out, and leaves out a late one
-- only if everything that it lists is late.
pub block_lem :
    (items : List Item) (clock : Clock) (scope : List Text) (b : Block)
    → block items clock scope ≡ some b
    → (b.items ≡ take 5 (ordered items scope))
      × (b.count ≡ length (retain surfaced items))
      × (b.overdue ≡ length (retain (λ i. i.overdue) items))
      × (length b.items + b.more ≡ b.count)
      × (length b.items ≤ 5)
      × (any (λ i. not i.overdue) b.items ≡ true
          → length (retain (λ i. i.overdue) b.items) ≡ b.overdue)
block_lem items clock scope b h =
    let all_items = ordered items scope in
    let s = block-Cut items clock scope b h in
    let late_count : b.overdue ≡ length (retain (λ i. i.overdue) items) =
      s.overdue ∙ count-ordered (λ i. i.overdue) items scope ∙ late_surfaced items in
    let all_count = s.count ∙ length-ordered items scope in
    let cut = length-take 5 all_items in
    let listed = ap length s.items in
    (
      s.items,
      all_count,
      late_count,
      omega (arith, s.more, s.count, cut, listed),
      omega (arith, cut, listed),
      λ m.
          ap (λ xs. length (retain (λ i. i.overdue) xs)) s.items
          ∙ cut_shows_late scope 5 all_items (ordered_lem items scope).1
              (ap (any (λ i. not i.overdue)) (sym s.items) ∙ m)
          ∙ sym s.overdue,
    )
