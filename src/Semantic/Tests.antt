-- ===== src/Semantic/Tests.antt =====
-- Runs of the vector state and of the cache, and the theorems at concrete values. The embedding of
-- a text is the text itself here.
use kyb.Common.{
  ℕ, ◌≤◌, Bool, true, false, ◌≡◌, ◌≢◌, inl, inr, refl, none, some, List, map, length, ◌⊎◌, sym, ◌∙◌,
  [], ◌∷◌, ◌++◌, Text, codes, ◌==◌, All, if◌then◌else◌, ok, arith,
}
use kyb.Semantic.Tickets.{UpdateTicket, VectorState, initial, next_ticket, install, put, insert}
use kyb.Semantic.Steps.{World, begin_upsert, land, Reach, start, next, IsFresh}
use kyb.Semantic.Freshness.{Reach-IsFresh}
use kyb.Semantic.Landing.{stored, next_ticket-install}
use kyb.Semantic.Cache.{
  Bytes, VectorCache, opened, file_bytes, read, get_entry, put_entry, insert as insert_vector,
  flush, vector_for,
}
use kyb.Semantic.RoundTrip.{IsValid, read-file_bytes}
use kyb.Semantic.Contents.{IsConsistent, IsCoherent, Job, vectors_for, IsAnswered, vectors_for_lem}

abbrev same : Text → Text
same t = t

abbrev key : Text
key = codes "redis-runbook"

abbrev first_ticket : UpdateTicket
first_ticket = record { key = key; generation = 1 }

abbrev second_ticket : UpdateTicket
second_ticket = record { key = key; generation = 2 }

abbrev first_state : VectorState Text
first_state = record { next_generation = 1; expected = insert key 1 (λ k. none); vectors = [] }

abbrev second_state : VectorState Text
second_state = record {
  next_generation = 2;
  expected = insert key 2 (insert key 1 (λ k. none));
  vectors = [];
}

first_step : next_ticket key (initial {V = Text}) ≡ some (first_ticket, first_state)
unfolding next_ticket initial
first_step = refl

second_step : next_ticket key first_state ≡ some (second_ticket, second_state)
unfolding next_ticket
second_step = refl

-- Two writes of one key; the embedding of the first arrives last.
abbrev raced : World Text
raced = record {
  state =
      (install first_ticket (codes "old") (install second_ticket (codes "new") second_state).1).1;
  current = insert key (codes "new") (insert key (codes "old") (λ k. none));
  pending = (second_ticket, codes "new") ∷ (first_ticket, codes "old") ∷ [];
}

raced-Reach : Reach same raced
raced-Reach =
    next
      (next
        (next (next start (begin_upsert key (codes "old") first_ticket first_state first_step))
          (begin_upsert key (codes "new") second_ticket second_state second_step))
        (land second_ticket (codes "new") (inl refl)))
      (land first_ticket (codes "old") (inr (inl refl)))

raced_stored : raced.state.vectors ≡ (key, codes "new") ∷ []
unfolding install put ◌==◌
raced_stored = refl

Reach-IsFresh_example : All (IsFresh same raced.current) raced.state.vectors
Reach-IsFresh_example = Reach-IsFresh same raced-Reach

next_ticket-install_example :
    ((install second_ticket (codes "new") second_state).0 ≡ true)
    × ((j : Text)
        → stored j (install second_ticket (codes "new") second_state).1.vectors
          ≡ (if key == j then some (codes "new") else stored j second_state.vectors))
    × ((old : UpdateTicket) (w : Text)
        → old.key ≡ key
        → old.generation ≤ first_state.next_generation
        → install old w second_state ≡ (false, second_state))
next_ticket-install_example =
    next_ticket-install key first_state second_state second_ticket (codes "new") second_step

abbrev hash_of : ℕ → Bytes
hash_of n = n ∷ 0 ∷ 0 ∷ 0 ∷ 0 ∷ 0 ∷ 0 ∷ 0 ∷ 0 ∷ 0 ∷ 0 ∷ 0 ∷ 0 ∷ 0 ∷ 0 ∷ 0 ∷ 0 ∷ 0 ∷ 0 ∷ 0 ∷ []

abbrev small : VectorCache
small = record {
  fingerprint = codes "v1";
  dim = 2;
  entries = (hash_of 1, 70000 ∷ 5 ∷ []) ∷ (hash_of 2, 6 ∷ 7 ∷ []) ∷ [];
  dirty = true;
}

hashes_differ : hash_of 2 ≢ hash_of 1
hashes_differ e = cc

small-IsValid : IsValid small
small-IsValid = record {
  fingerprint_short = omega arith;
  dim_positive = omega arith;
  dim_plausible = omega arith;
  fits = omega arith;
  distinct = ((hashes_differ, tt), (tt, tt));
}

any_utf8 : Bytes → Bool
any_utf8 bs = true

small_utf8 : any_utf8 small.fingerprint ≡ true
unfolding any_utf8
small_utf8 = refl

read-file_bytes_example :
    read any_utf8 (file_bytes small ++ (1 ∷ 2 ∷ 3 ∷ [])) (opened small.fingerprint)
    ≡ ok (record small { dirty = false })
read-file_bytes_example =
    read-file_bytes any_utf8 small (1 ∷ 2 ∷ 3 ∷ []) small-IsValid small_utf8 (omega arith)

small-IsConsistent : IsConsistent small
small-IsConsistent = record {
  fits = small-IsValid.fits;
  distinct = small-IsValid.distinct;
  undecided = λ e. absurd (omega arith);
}

abbrev pair : List ℕ
pair = 8 ∷ 9 ∷ []

-- Twenty bytes that tell texts of different lengths apart.
length_hash : Text → Bytes
length_hash t = hash_of (length t)

abbrev one : Text
one = codes "a"

abbrev two : Text
two = codes "ab"

abbrev OneOrTwo : Text → Type 0
OneOrTwo t = (t ≡ one) ⊎ (t ≡ two)

apart : (s t : Text) → OneOrTwo s → OneOrTwo t → length_hash s ≡ length_hash t → s ≡ t
unfolding length_hash
apart s t (inl e) (inl f) h = e ∙ sym f
apart s t (inr e) (inr f) h = e ∙ sym f
apart s t (inl e) (inr f) h = let h' = (rw (e, f) at h) in ground arith
apart s t (inr e) (inl f) h = let h' = (rw (e, f) at h) in ground arith

abbrev jobs : List Job
jobs =
    record { text = one; computes = true; written = false }
    ∷ record { text = two; computes = false; written = true }
    ∷ record { text = one; computes = false; written = true }
    ∷ []

opened-IsCoherent : IsCoherent same length_hash OneOrTwo (opened (codes "v1"))
unfolding get_entry
opened-IsCoherent t v u e = cc

vectors_for_example :
    let (answers, cache') = vectors_for same length_hash jobs (opened (codes "v1")) in
    All (IsAnswered same) answers × IsCoherent same length_hash OneOrTwo cache'
vectors_for_example =
    vectors_for_lem same length_hash OneOrTwo apart jobs (opened (codes "v1"))
      (inl refl, (inr refl, (inl refl, tt))) opened-IsCoherent

-- The cache answers the third job, which the model does not; the second one fails.
vectors_for-jobs :
    map (λ a. a.1) (vectors_for same length_hash jobs (opened (codes "v1"))).0
    ≡ some one ∷ none ∷ some one ∷ []
unfolding vectors_for vector_for insert_vector flush put_entry get_entry length_hash ◌==◌
vectors_for-jobs = refl
