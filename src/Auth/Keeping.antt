-- ===== src/Auth/Keeping.antt =====
-- What the operations on the book keep: one principal to an id, and who a token belongs to.
use kyb.Common.{
  Bool, true, false, not, ◌&&◌, ◌||◌, ◌≡◌, ◌≢◌, refl, inl, inr, some, List, [], ◌∷◌, ◌++◌, Text,
  ◌==◌, eq_iff, any, All, arith, Bool-cases,
}
use kyb.Auth.{Actor}
use kyb.Auth.Book.{Principal, change_first, has_token, actor_of, lookup_in}

-- No two principals share an id.
abbrev pub Distinct : List Principal → Type 0
Distinct [] = Unit
Distinct (p ∷ ps) = All (λ q. q.id ≢ p.id) ps × Distinct ps

-- A principal that is not revoked holds a live token with this digest.
abbrev pub holds : Text → List Principal → Bool
holds h ps = any (λ p. not p.revoked && has_token h p) ps

pub any-append {ℓ} :
    {A : Type ℓ} (test : A → Bool) (xs ys : List A)
    → any test (xs ++ ys) ≡ (any test xs || any test ys)
any-append test [] ys = refl
any-append test (x ∷ xs) ys = ground (arith, any-append test xs ys)

All-ne-append :
    (id : Text) (ps : List Principal) (q : Principal)
    → All (λ p. p.id ≢ id) ps
    → q.id ≢ id
    → All (λ p. p.id ≢ id) (ps ++ q ∷ [])
All-ne-append id [] q h n = (n, tt)
All-ne-append id (p ∷ ps) q h n = (h.0, All-ne-append id ps q h.1 n)

pub fresh-Distinct :
    (ps : List Principal) (q : Principal)
    → any (λ p. p.id == q.id) ps ≡ false
    → Distinct ps
    → Distinct (ps ++ q ∷ [])
fresh-Distinct [] q h d = (tt, tt)
fresh-Distinct (p ∷ ps) q h d = (
  All-ne-append p.id ps q d.0 (ground (arith, eq_iff p.id q.id)),
  fresh-Distinct ps q (ground arith) d.1,
)

-- A change that keeps the ids keeps them apart.
change_first-ne :
    (test : Principal → Bool) (f : Principal → Principal) (id : Text) (ps : List Principal)
    → ((p : Principal) → (f p).id ≡ p.id)
    → All (λ p. p.id ≢ id) ps
    → All (λ p. p.id ≢ id) (change_first test f ps)
unfolding change_first
change_first-ne test f id [] same h = tt
change_first-ne test f id (p ∷ ps) same h =
    ground (arith, same p, change_first-ne test f id ps same h.1)

pub change_first-Distinct :
    (test : Principal → Bool) (f : Principal → Principal) (ps : List Principal)
    → ((p : Principal) → (f p).id ≡ p.id)
    → Distinct ps
    → Distinct (change_first test f ps)
unfolding change_first
change_first-Distinct test f [] same d = tt
change_first-Distinct test f (p ∷ ps) same d = elim (Bool-cases (test p)) [
  | inl e ↦ rw e (rw (same p) d.0, d.1)
  | inr e ↦ rw e (change_first-ne test f p.id ps same d.0, change_first-Distinct test f ps same d.1)
]

-- Who a digest belongs to does not change where every principal keeps its name and its digest.
pub lookup_in-append :
    (h : Text) (ps qs : List Principal) (a : Actor)
    → lookup_in h ps ≡ some a
    → lookup_in h (ps ++ qs) ≡ some a
unfolding lookup_in
lookup_in-append h [] qs a e = ground arith
lookup_in-append h (p ∷ ps) qs a e = ground (arith, lookup_in-append h ps qs a)

pub lookup_in-last :
    (h : Text) (ps : List Principal) (q : Principal)
    → holds h ps ≡ false
    → (not q.revoked && has_token h q) ≡ true
    → lookup_in h (ps ++ q ∷ []) ≡ some (actor_of q)
unfolding lookup_in
lookup_in-last h [] q fresh active = rw active
lookup_in-last h (p ∷ ps) q fresh active = ground (arith, lookup_in-last h ps q)

pub lookup_in-holds :
    (h : Text) (ps : List Principal) (a : Actor) → lookup_in h ps ≡ some a → holds h ps ≡ true
unfolding lookup_in
lookup_in-holds h [] a e = ground arith
lookup_in-holds h (p ∷ ps) a e = ground (arith, lookup_in-holds h ps a)
