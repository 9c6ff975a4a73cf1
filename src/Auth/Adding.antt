-- ===== src/Auth/Adding.antt =====
-- `add` and `issue`: the new token signs in its principal, and nobody else loses theirs.
use kyb.Common.{
  Bool, true, false, not, ◌&&◌, ◌≡◌, refl, inl, inr, Option, none, some, List, [], ◌∷◌, ◌++◌, Text,
  ◌==◌, eq_iff, eq_refl, any, ok, arith, Bool-cases, Option-cases, trim,
}
use kyb.Auth.{Role, Actor}
use kyb.Auth.Keeping.{
  Distinct, holds, fresh-Distinct, change_first-Distinct, lookup_in-append, lookup_in-last,
  any-append, lookup_in-holds,
}
use kyb.Auth.Book.{
  TokenRec, Principal, Book, is_live, valid_id, new_token, add, issue, change_first, find_first,
  has_token, token_rec, principal_of, actor_of, lookup_in, lookup, push_token,
}

-- What a successful `add` puts at the end of the book.
record Added (hash_token : Text → Text) (id name : Text) (role : Role) (book : Book) (token : Text)
    (book' : Book) : Type 0 where
  pub principal : Principal
  pub at_end : book'.principals ≡ book.principals ++ principal ∷ []
  pub new_id : any (λ p. p.id == id) book.principals ≡ false
  pub valid : valid_id id ≡ true
  pub id_is : principal.id ≡ id
  pub name_is : principal.name ≡ trim name
  pub role_is : principal.role ≡ role
  pub active : (not principal.revoked && has_token (hash_token token) principal) ≡ true

add-Added :
    (hash_token : Text → Text) (now : Text) (raw : Option Text) (id name email : Text) (role : Role)
    (label : Text) (book book' : Book) (token : Text)
    → add hash_token now raw id name email role label book ≡ ok (token, book')
    → Added hash_token id name role book token book'
unfolding add new_token
add-Added hash_token now none id name email role label book book' token h = ground arith
add-Added hash_token now (some hex) id name email role label book book' token h = record {
  principal =
      principal_of id name email role (record (token_rec hash_token now token) { label = label });
  at_end = ground arith;
  new_id = ground arith;
  valid = ground arith;
  id_is = refl;
  name_is = refl;
  role_is = refl;
  active = ground (arith, eq_refl (hash_token token));
}

-- A successful `add` keeps the ids distinct, its token signs in the new principal under the id,
-- trimmed name and role that were given, if no principal holds the digest already, and every
-- token that signed somebody in still does.
pub add-keeps :
    (hash_token : Text → Text) (now : Text) (raw : Option Text) (id name email : Text) (role : Role)
    (label : Text) (book book' : Book) (token : Text)
    → add hash_token now raw id name email role label book ≡ ok (token, book')
    → Distinct book.principals
    → holds (hash_token token) book.principals ≡ false
    → Distinct book'.principals
      × ((a : Actor) × (lookup hash_token book' token ≡ some a)
          × (a.id ≡ id)
          × (a.name ≡ trim name)
          × (a.role ≡ role))
      × ((t : Text) (a : Actor)
          → lookup hash_token book t ≡ some a
          → lookup hash_token book' t ≡ some a)
unfolding lookup
add-keeps hash_token now raw id name email role label book book' token h distinct fresh =
    let s = add-Added hash_token now raw id name email role label book book' token h in
    rw s.at_end (
      fresh-Distinct book.principals s.principal (rw s.id_is s.new_id) distinct,
      (
        actor_of s.principal,
        lookup_in-last (hash_token token) book.principals s.principal fresh s.active,
        s.id_is,
        s.name_is,
        s.role_is,
      ),
      λ t a e. lookup_in-append (hash_token t) book.principals (s.principal ∷ []) a e,
    )

-- One more token of a principal changes the lookup of no other digest.
lookup_in-push :
    (h : Text) (test : Principal → Bool) (rec : TokenRec) (ps : List Principal)
    → (rec.sha256 == h) ≡ false
    → lookup_in h (change_first test (push_token rec) ps) ≡ lookup_in h ps
unfolding lookup_in change_first
lookup_in-push h test rec [] other = refl
lookup_in-push h test rec (p ∷ ps) other = ground (
  arith,
  lookup_in-push h test rec ps other,
  any-append (λ (t : TokenRec). is_live t && t.sha256 == h) p.tokens (rec ∷ []),
)

lookup_in-pushed :
    (h : Text) (test : Principal → Bool) (rec : TokenRec) (ps : List Principal) (q : Principal)
    → find_first test ps ≡ some q
    → q.revoked ≡ false
    → (is_live rec && rec.sha256 == h) ≡ true
    → holds h ps ≡ false
    → lookup_in h (change_first test (push_token rec) ps) ≡ some (actor_of q)
unfolding lookup_in change_first find_first
lookup_in-pushed h test rec [] q found active live fresh = ground arith
lookup_in-pushed h test rec (p ∷ ps) q found active live fresh = ground (
  arith,
  lookup_in-pushed h test rec ps q,
  any-append (λ (t : TokenRec). is_live t && t.sha256 == h) p.tokens (rec ∷ []),
)

-- What a successful `issue` changes.
record Issued (hash_token : Text → Text) (id : Text) (book : Book) (token : Text) (book' : Book)
    : Type 0 where
  pub principal : Principal
  pub rec : TokenRec
  pub was : find_first (λ p. p.id == id) book.principals ≡ some principal
  pub active : principal.revoked ≡ false
  pub changed : book'.principals ≡ change_first (λ p. p.id == id) (push_token rec) book.principals
  pub digest : rec.sha256 ≡ hash_token token
  pub live : (is_live rec && rec.sha256 == hash_token token) ≡ true

issue-Issued :
    (hash_token : Text → Text) (now : Text) (raw : Option Text) (id label : Text)
    (book book' : Book) (token : Text)
    → issue hash_token now raw id label book ≡ ok (token, book')
    → Issued hash_token id book token book'
unfolding issue new_token
issue-Issued hash_token now none id label book book' token h =
    elim (Option-cases (find_first (λ p. p.id == id) book.principals)) [
      | inl e ↦ ground arith
      | inr (p, e) ↦ ground arith
    ]
issue-Issued hash_token now (some hex) id label book book' token h =
    elim (Option-cases (find_first (λ p. p.id == id) book.principals)) [
      | inl e ↦ ground arith
      | inr (p, e) ↦ record {
        principal = p;
        rec = record (token_rec hash_token now token) { label = label };
        was = e;
        active = ground arith;
        changed = ground arith;
        digest = refl;
        live = ground (arith, eq_refl (hash_token token));
      }
    ]

-- `find_first` finds what passes the test.
find_first-test :
    (id : Text) (ps : List Principal) (p : Principal)
    → find_first (λ q. q.id == id) ps ≡ some p
    → p.id ≡ id
unfolding find_first
find_first-test id [] p e = ground arith
find_first-test id (q ∷ ps) p e = ground (arith, find_first-test id ps p, eq_iff q.id id)

-- A successful `issue` keeps the ids distinct, its token signs in the principal with that id, who
-- is not revoked, if no principal holds the digest already, and every token that signed somebody
-- in still does: a rotation has an overlap.
pub issue-keeps :
    (hash_token : Text → Text) (now : Text) (raw : Option Text) (id label : Text)
    (book book' : Book) (token : Text)
    → issue hash_token now raw id label book ≡ ok (token, book')
    → Distinct book.principals
    → holds (hash_token token) book.principals ≡ false
    → Distinct book'.principals
      × ((a : Actor) × (lookup hash_token book' token ≡ some a) × (a.id ≡ id))
      × ((t : Text) (a : Actor)
          → lookup hash_token book t ≡ some a
          → lookup hash_token book' t ≡ some a)
unfolding lookup
issue-keeps hash_token now raw id label book book' token h distinct fresh =
    let s = issue-Issued hash_token now raw id label book book' token h in
    rw s.changed (
      change_first-Distinct (λ p. p.id == id) (push_token s.rec) book.principals (λ p. refl)
          distinct,
      (
        actor_of s.principal,
        lookup_in-pushed (hash_token token) (λ p. p.id == id) s.rec book.principals s.principal
            s.was s.active s.live fresh,
        find_first-test id book.principals s.principal s.was,
      ),
      λ t a e. kept s t a e,
    )
  where
    kept :
        (s : Issued hash_token id book token book') (t : Text) (a : Actor)
        → lookup_in (hash_token t) book.principals ≡ some a
        → lookup_in
            (hash_token t)
            (change_first (λ p. p.id == id) (push_token s.rec) book.principals)
          ≡ some a
    kept s t a e = elim (Bool-cases (s.rec.sha256 == hash_token t)) [
      | inl same ↦ ground (
        arith,
        lookup_in-holds (hash_token t) book.principals a e,
        eq_iff s.rec.sha256 (hash_token t),
        s.digest,
      )
      | inr other ↦ rw (lookup_in-push (hash_token t) _ s.rec book.principals other) e
    ]
