-- ===== src/Auth/Decisions.antt =====
-- What `decide` lets through, and whom it refuses.
use kyb.Common.{
  ◌≤◌, ◌<◌, false, ◌≡◌, ◌≢◌, refl, ◌⊎◌, ◌↔◌, inl, inr, Option, none, some, Text, ◌==◌, codes,
  eq_iff, ok, arith, Option-cases,
}
use kyb.Auth.{
  Role, read, write, admin, rank, required, Actor, Session, Method, is_reading, Need, nothing,
  at_least, need, bearer_token, session_of, check_role, and_then, decide, anon_of_env,
}

-- The role that a session must have on a route.
abbrev pub Enough : Need → Role → Type 0
Enough nothing r = Unit
Enough (at_least n) r = rank n ≤ rank r

-- Who may act in `required` mode without an anonymous role, written apart from the code: a token
-- that the book knows gives its actor and the actor's role; without such a token only a route that
-- asks for nothing is served, as a reader without an actor, and a token that is not known only on
-- the page itself.
abbrev pub Entitled : (Text → Option Actor) → Need → Text → Option Text → Session → Type 0
Entitled lookup wanted path token s =
    ((t : Text) × (a : Actor) × (token ≡ some t)
      × (lookup t ≡ some a)
      × (s ≡ record { actor = some a; role = a.role })
      × Enough (wanted) a.role)
    ⊎ ((s ≡ record { actor = none; role = read })
        × (wanted ≡ nothing)
        × ((token ≡ none)
            ⊎ ((t : Text) × (token ≡ some t) × (lookup t ≡ none) × (path ≡ codes "/"))))

module _ (lookup : Text → Option Actor) (path : Text) where
  granted :
      (wanted : Need) (token : Option Text) (s : Session)
      → (path ≡ codes "/" → wanted ≡ nothing)
      → (and_then (session_of required none lookup path wanted token) (check_role wanted) ≡ ok s)
      → Entitled lookup wanted path token s
  unfolding session_of check_role
  granted nothing none s page h = inr (ground arith, refl, inl refl)
  granted (at_least r) none s page h = ground arith
  granted nothing (some t) s page h = elim (Option-cases (lookup t)) [
    | inl e ↦ inr (ground arith, refl, inr (t, refl, e, ground (arith, eq_iff path (codes "/"))))
    | inr (a, e) ↦ inl (t, a, refl, e, ground arith, tt)
  ]
  granted (at_least r) (some t) s page h = elim (Option-cases (lookup t)) [
    | inl e ↦ ground (arith, eq_iff path (codes "/"), page)
    | inr (a, e) ↦ inl (t, a, refl, e, ground arith, ground arith)
  ]

  entitled :
      (wanted : Need) (token : Option Text) (s : Session)
      → Entitled lookup wanted path token s
      → and_then (session_of required none lookup path wanted token) (check_role wanted) ≡ ok s
  unfolding session_of check_role
  entitled nothing none s h = ground arith
  entitled (at_least r) none s h = ground arith
  entitled nothing (some t) s h = ground (arith, eq_iff path (codes "/"))
  entitled (at_least r) (some t) s h = ground (arith, eq_iff path (codes "/"))

-- In `required` mode without an anonymous role a request is served exactly to those entitled to
-- it, with exactly the session that they are entitled to.
pub decide_required_iff :
    (lookup : Text → Option Actor) (method : Method) (path : Text) (bearer : Option Text)
    (s : Session)
    → (decide required none lookup method path bearer ≡ ok s)
      ↔ Entitled lookup (need method path) path (bearer_token bearer) s
unfolding decide
decide_required_iff lookup method path bearer s = (
  granted lookup path (need method path) (bearer_token bearer) s (λ e. rw e (page-nothing method)),
  entitled lookup path (need method path) (bearer_token bearer) s,
)
  where
    page-nothing : (m : Method) → need m (codes "/") ≡ nothing
    page-nothing m = unfold need ◌==◌ in refl

need_writing :
    (method : Method) (path : Text)
    → is_reading method ≡ false
    → need method path ≢ nothing
    → ((need method path ≡ at_least write)
        × (path ≢ codes "/api/audit")
        × (path ≢ codes "/reindex"))
      ⊎ (need method path ≡ at_least admin)
unfolding need
need_writing method path w n =
    ground (arith, eq_iff path (codes "/api/audit"), eq_iff path (codes "/reindex"))

anon_env :
    (raw : Text) (anon : Option Role)
    → anon_of_env raw ≡ ok anon
    → (anon ≡ none) ⊎ (anon ≡ some read)
unfolding anon_of_env
anon_env raw anon h = ground arith

-- Whom a session with at least the role to write was given to.
abbrev pub Known : (Text → Option Actor) → Option Text → Role → Session → Type 0
Known lookup token least s =
    (t : Text) × (a : Actor) × (token ≡ some t)
    × (lookup t ≡ some a)
    × (s ≡ record { actor = some a; role = a.role })
    × (rank least ≤ rank a.role)

known :
    (anon : Option Role) (lookup : Text → Option Actor) (path : Text) (least : Role)
    (token : Option Text) (s : Session)
    → 0 < rank least
    → (anon ≡ none) ⊎ (anon ≡ some read)
    → and_then
        (session_of required anon lookup path (at_least least) token)
        (check_role (at_least least))
      ≡ ok s
    → Known lookup token least s
unfolding session_of check_role
known none lookup path least none s l a h = ground arith
known (some r) lookup path least none s l a h = ground arith
known anon lookup path least (some t) s l a h = elim (Option-cases (lookup t)) [
  | inl e ↦ ground arith
  | inr (x, e) ↦ (t, x, refl, e, ground arith, ground arith)
]

-- In `required` mode, whatever anonymous role the environment can set, a request that is not a
-- reading one and whose route asks for something is served only to an actor whose token the book
-- knows and whose role is at least to write, and on the reindex and audit routes only to an admin.
pub writes_need_a_writer :
    (raw : Text) (anon : Option Role) (lookup : Text → Option Actor) (method : Method) (path : Text)
    (bearer : Option Text) (s : Session)
    → anon_of_env raw ≡ ok anon
    → decide required anon lookup method path bearer ≡ ok s
    → is_reading method ≡ false
    → need method path ≢ nothing
    → Known lookup (bearer_token bearer) write s
      × ((path ≡ codes "/api/audit") ⊎ (path ≡ codes "/reindex") → s.role ≡ admin)
unfolding decide
writes_need_a_writer raw anon lookup method path bearer s env h w n =
    elim (need_writing method path w n) [
      | inl (e, not_audit, not_reindex) ↦ (
        known anon lookup path write (bearer_token bearer) s (omega arith) (anon_env raw anon env)
            (rw (← e) h),
        λ p. absurd (elim p [ inl q ↦ not_audit q | inr q ↦ not_reindex q ]),
      )
      | inr e ↦
          let k =
            known anon lookup path admin (bearer_token bearer) s (omega arith)
              (anon_env raw anon env) (rw (← e) h) in
          ((k.0, k.1, k.2, k.3, k.4, ground (arith, k.5)), λ p. ground (arith, k.4, k.5))
    ]
