-- ===== src/Auth/Revoking.antt =====
-- `revoke_principal` and `revoke_token`: what stops working, and that nothing else does.
use kyb.Common.{
  ℕ, suc, ◌+◌, Bool, true, false, not, ◌&&◌, ◌≡◌, ◌≢◌, refl, inl, inr, none, some, List, [], ◌∷◌,
  Text, ◌==◌, eq_iff, eq_sound, any, All, arith, Bool-cases, Option-cases, if◌then◌else◌, sym,
}
use kyb.Auth.{Actor}
use kyb.Auth.Keeping.{Distinct, change_first-Distinct}
use kyb.Auth.Book.{
  TokenRec, Principal, Book, is_live, change_first, find_first, revoke_in, revoke_among,
  revoke_token, revoke_tokens, revoke_principal, lookup_in, lookup,
}

abbrev live_named : Text → Principal → Bool
live_named id p = p.id == id && not p.revoked

lookup_in-ne :
    (h id : Text) (ps : List Principal) (a : Actor)
    → All (λ q. q.id ≢ id) ps
    → lookup_in h ps ≡ some a
    → a.id ≢ id
unfolding lookup_in
lookup_in-ne h id [] a ne e = ground arith
lookup_in-ne h id (p ∷ ps) a ne e = ground (arith, lookup_in-ne h id ps a ne.1)

-- After the change no digest leads to the id.
lookup_in-revoked :
    (h now id : Text) (ps : List Principal) (p : Principal) (a : Actor)
    → Distinct ps
    → find_first (live_named id) ps ≡ some p
    → lookup_in h (change_first (live_named id) (revoke_tokens now) ps) ≡ some a
    → a.id ≢ id
unfolding lookup_in change_first find_first revoke_tokens
lookup_in-revoked h now id [] p a d f e = ground arith
lookup_in-revoked h now id (q ∷ ps) p a d f e = elim (Bool-cases (live_named id q)) [
  | inl hit ↦ lookup_in-ne h id ps a (rw (← eq_sound q.id id (ground arith)) d.0) (ground arith)
  | inr miss ↦ ground (arith, lookup_in-revoked h now id ps p a d.1, eq_iff q.id id)
]

-- And a digest that led to another id leads there still.
lookup_in-others :
    (h now id : Text) (ps : List Principal) (a : Actor)
    → a.id ≢ id
    → lookup_in h ps ≡ some a
    → lookup_in h (change_first (live_named id) (revoke_tokens now) ps) ≡ some a
unfolding lookup_in change_first revoke_tokens
lookup_in-others h now id [] a ne e = ground arith
lookup_in-others h now id (q ∷ ps) a ne e =
    ground (arith, lookup_in-others h now id ps a ne, eq_iff q.id id)

find_first-any :
    (test : Principal → Bool) (ps : List Principal)
    → find_first test ps ≡ none
    → any test ps ≡ false
unfolding find_first
find_first-any test [] e = refl
find_first-any test (p ∷ ps) e = ground (arith, find_first-any test ps)

any-find_first :
    (test : Principal → Bool) (ps : List Principal) (p : Principal)
    → find_first test ps ≡ some p
    → any test ps ≡ true
unfolding find_first
any-find_first test [] p e = ground arith
any-find_first test (q ∷ ps) p e = ground (arith, any-find_first test ps p)

-- `revoke_principal` succeeds exactly when a principal with the id is not revoked. In a book with
-- distinct ids, after it succeeds no token signs in anybody with the id, every token that signed
-- in somebody else still does, and the ids stay distinct.
pub revoke_principal_lem :
    (hash_token : Text → Text) (now id : Text) (book : Book)
    → Distinct book.principals
    → let (done, book') = revoke_principal now id book in
      (done ≡ any (λ p. p.id == id && not p.revoked) book.principals)
      × Distinct book'.principals
      × ((t : Text) (a : Actor) → done ≡ true → lookup hash_token book' t ≡ some a → a.id ≢ id)
      × ((t : Text) (a : Actor)
          → lookup hash_token book t ≡ some a
          → a.id ≢ id
          → lookup hash_token book' t ≡ some a)
unfolding revoke_principal lookup
revoke_principal_lem hash_token now id book d =
    elim (Option-cases (find_first (live_named id) book.principals)) [
      | inl e ↦
          rw (e, revoke_principal)
            (
              sym (find_first-any (live_named id) book.principals e),
              d,
              λ t a f. ground arith,
              λ t a f ne. f,
            )
      | inr (p, e) ↦
          rw (e, revoke_principal)
            (
              sym (any-find_first (live_named id) book.principals p e),
              change_first-Distinct (live_named id) (revoke_tokens now) book.principals
                  (λ q. unfold revoke_tokens in refl) d,
              λ t a _ f. lookup_in-revoked (hash_token t) now id book.principals p a d e f,
              λ t a f ne. lookup_in-others (hash_token t) now id book.principals a ne f,
            )
    ]

-- How many live tokens of a principal, and of a book, carry the id.
abbrev pub live_tokens : Text → List TokenRec → ℕ
live_tokens id [] = 0
live_tokens id (t ∷ ts) = let n = live_tokens id ts in if t.id == id && is_live t then suc n else n

abbrev pub live_in_book : Text → List Principal → ℕ
live_in_book id [] = 0
live_in_book id (p ∷ ps) = live_tokens id p.tokens + live_in_book id ps

revoke_in_lem :
    (now id : Text) (ts : List TokenRec)
    → ((revoke_in now id ts).0 ≡ live_tokens id ts) × (live_tokens id (revoke_in now id ts).1 ≡ 0)
unfolding revoke_in
revoke_in_lem now id [] = (refl, refl)
revoke_in_lem now id (t ∷ ts) = ground (arith, revoke_in_lem now id ts)

revoke_in-other :
    (now id j : Text) (ts : List TokenRec)
    → j ≢ id
    → live_tokens j (revoke_in now id ts).1 ≡ live_tokens j ts
unfolding revoke_in
revoke_in-other now id j [] ne = refl
revoke_in-other now id j (t ∷ ts) ne =
    ground (arith, revoke_in-other now id j ts ne, eq_iff t.id id, eq_iff t.id j)

revoke_among_lem :
    (now id : Text) (ps : List Principal)
    → ((revoke_among now id ps).0 ≡ live_in_book id ps)
      × (live_in_book id (revoke_among now id ps).1 ≡ 0)
unfolding revoke_among
revoke_among_lem now id [] = (refl, refl)
revoke_among_lem now id (p ∷ ps) =
    ground (arith, revoke_in_lem now id p.tokens, revoke_among_lem now id ps)

revoke_among-other :
    (now id j : Text) (ps : List Principal)
    → j ≢ id
    → live_in_book j (revoke_among now id ps).1 ≡ live_in_book j ps
unfolding revoke_among
revoke_among-other now id j [] ne = refl
revoke_among-other now id j (p ∷ ps) ne =
    ground (arith, revoke_in-other now id j p.tokens ne, revoke_among-other now id j ps ne)

-- `revoke_token` returns the number of live tokens with the id, leaves none of them live, and
-- leaves as many live tokens of any other id as there were.
pub revoke_token_lem :
    (now id : Text) (book : Book)
    → let (n, book') = revoke_token now id book in
      (n ≡ live_in_book id book.principals)
      × (live_in_book id book'.principals ≡ 0)
      × ((j : Text) → j ≢ id → live_in_book j book'.principals ≡ live_in_book j book.principals)
unfolding revoke_token
revoke_token_lem now id book =
    let both = revoke_among_lem now id book.principals in
    (both.0, both.1, λ j ne. revoke_among-other now id j book.principals ne)
