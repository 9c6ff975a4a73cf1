-- ===== src/Semantic/Contents.antt =====
-- The vector cache as a map from hashes, and why a vector that it returns is the right one.
use kyb.Common.{
  ℕ, ◌<◌, Bool, true, false, Option, ◌≡◌, ◌≢◌, ◌⊎◌, refl, none, some, List, [], ◌∷◌, Text, ◌==◌,
  eq_sound, eq_iff, length, All, arith, if◌then◌else◌, eqb, Bool-cases, inl, inr, ap, Option-cases,
}
use kyb.Semantic.Cache.{Bytes, VectorCache, put_entry, get_entry, insert, flush, vector_for}
use kyb.Semantic.RoundTrip.{IsWord, Fits, DistinctKeys, NotIn}

get_entry-put_entry :
    (h j : Bytes) (v : List ℕ) (es : List (Bytes × List ℕ))
    → get_entry j (put_entry h v es) ≡ (if h == j then some v else get_entry j es)
unfolding get_entry put_entry
get_entry-put_entry h j v [] = refl
get_entry-put_entry h j v ((k, w) ∷ es) =
    ground (arith, eq_iff h j, eq_iff k h, eq_iff k j, get_entry-put_entry h j v es)

put_entry-Fits :
    (dim : ℕ) (h : Bytes) (v : List ℕ) (es : List (Bytes × List ℕ))
    → Fits dim (h, v)
    → All (Fits dim) es
    → All (Fits dim) (put_entry h v es)
unfolding put_entry
put_entry-Fits dim h v [] f fs = (f, tt)
put_entry-Fits dim h v ((k, w) ∷ es) f (g, gs) = elim (Bool-cases (k == h)) [
  | inl e ↦ rw e ((g.0, f.1, f.2), gs)
  | inr e ↦ rw e (g, put_entry-Fits dim h v es f gs)
]

put_entry-NotIn :
    (k h : Bytes) (v : List ℕ) (es : List (Bytes × List ℕ))
    → h ≢ k
    → NotIn k es
    → NotIn k (put_entry h v es)
unfolding put_entry
put_entry-NotIn k h v [] ne n = (ne, tt)
put_entry-NotIn k h v ((j, w) ∷ es) ne (n, ns) = elim (Bool-cases (j == h)) [
  | inl e ↦ rw e (n, ns)
  | inr e ↦ rw e (n, put_entry-NotIn k h v es ne ns)
]

put_entry-DistinctKeys :
    (h : Bytes) (v : List ℕ) (es : List (Bytes × List ℕ))
    → DistinctKeys es
    → DistinctKeys (put_entry h v es)
unfolding put_entry
put_entry-DistinctKeys h v [] d = (tt, tt)
put_entry-DistinctKeys h v ((k, w) ∷ es) (n, d) = elim (Bool-cases (k == h)) [
  | inl e ↦ rw e (n, d)
  | inr e ↦ rw e (
    put_entry-NotIn k h v es (λ q. ground (arith, eq_iff k h)) n,
    put_entry-DistinctKeys h v es d,
  )
]

-- What every cache satisfies that was opened and filled.
pub record IsConsistent (cache : VectorCache) : Type 0 where
  pub fits : All (Fits cache.dim) cache.entries
  pub distinct : DistinctKeys cache.entries
  pub undecided : cache.dim ≡ 0 → cache.entries ≡ []

abbrev after_insert : Bytes → List ℕ → VectorCache → VectorCache
after_insert h v cache = record cache {
  dim = length v;
  entries = put_entry h v cache.entries;
  dirty = elim (get_entry h cache.entries) [ none ↦ true | some _ ↦ cache.dirty ];
}

insert_fitting :
    (h : Bytes) (v : List ℕ) (cache : VectorCache)
    → (cache.dim ≡ 0) ⊎ (cache.dim ≡ length v)
    → insert h v cache ≡ after_insert h v cache
unfolding insert
insert_fitting h v cache f = ground arith

insert_misfit :
    (h : Bytes) (v : List ℕ) (cache : VectorCache)
    → cache.dim ≢ 0
    → cache.dim ≢ length v
    → insert h v cache ≡ cache
unfolding insert
insert_misfit h v cache n m = ground arith

after_insert-IsConsistent :
    (h : Bytes) (v : List ℕ) (cache : VectorCache)
    → IsConsistent cache
    → Fits (length v) (h, v)
    → 0 < length v
    → (cache.dim ≡ 0) ⊎ (cache.dim ≡ length v)
    → IsConsistent (after_insert h v cache)
after_insert-IsConsistent h v cache c f pos m = record {
  fits = put_entry-Fits (length v) h v cache.entries f (kept m);
  distinct = put_entry-DistinctKeys h v cache.entries c.distinct;
  undecided = λ e. absurd (omega arith);
}
  where
    kept : (cache.dim ≡ 0) ⊎ (cache.dim ≡ length v) → All (Fits (length v)) cache.entries
    kept (inl e) = rw (c.undecided e) tt
    kept (inr e) = rw (← e) c.fits

dim-cases : (d n : ℕ) → ((d ≡ 0) ⊎ (d ≡ n)) ⊎ ((d ≢ 0) × (d ≢ n))
dim-cases d n = elim (Bool-cases (eqb d 0)) [
  | inl e ↦ inl (inl (ground arith))
  | inr e ↦ elim (Bool-cases (eqb d n)) [
    | inl f ↦ inl (inr (ground arith))
    | inr f ↦ inr (ground arith, ground arith)
  ]
]

-- `insert` of a vector of at least one float under a hash of 20 bytes keeps the cache consistent.
-- It stores the vector if the dimension fits or is not decided yet, under that hash alone, and
-- otherwise leaves every lookup as it was.
pub insert_lem :
    (h : Bytes) (v : List ℕ) (cache : VectorCache)
    → IsConsistent cache
    → length h ≡ 20
    → All IsWord v
    → 0 < length v
    → IsConsistent (insert h v cache)
      × ((j : Bytes)
          → (cache.dim ≡ 0) ⊎ (cache.dim ≡ length v)
          → get_entry j (insert h v cache).entries
            ≡ (if h == j then some v else get_entry j cache.entries))
      × (cache.dim ≢ 0 → cache.dim ≢ length v → insert h v cache ≡ cache)
insert_lem h v cache c len words pos = (
  consistent (dim-cases cache.dim (length v)),
  λ j m. rw (insert_fitting h v cache m) (get_entry-put_entry h j v cache.entries),
  insert_misfit h v cache,
)
  where
    consistent :
        ((cache.dim ≡ 0) ⊎ (cache.dim ≡ length v)) ⊎ ((cache.dim ≢ 0) × (cache.dim ≢ length v))
        → IsConsistent (insert h v cache)
    consistent (inl m) =
        rw (insert_fitting h v cache m)
          (after_insert-IsConsistent h v cache c (len, refl, words) pos m)
    consistent (inr (n, m)) = rw (insert_misfit h v cache n m) c

-- A text to embed, whether the model computes this time, and whether the file system takes the file.
pub record Job : Type 0 where
  pub text : Text
  pub computes : Bool
  pub written : Bool

abbrev pub embed_in : (Text → List ℕ) → Job → Text → Option (List ℕ)
embed_in model j t = if j.computes then some (model t) else none

-- The vectors for one text after the other, each with the text that it was asked for.
unfoldable pub vectors_for :
    (Text → List ℕ)
    → (Text → Bytes)
    → List Job
    → VectorCache
    → List (Job × Option (List ℕ)) × VectorCache
vectors_for model hash [] cache = ([], cache)
vectors_for model hash (j ∷ js) cache =
    let (v, cache') = vector_for (embed_in model j) hash j.written j.text cache in
    let (vs, last) = vectors_for model hash js cache' in ((j, v) ∷ vs, last)

-- The answer is the text's embedding, or an error where the model did not compute.
abbrev pub IsAnswered : (Text → List ℕ) → Job × Option (List ℕ) → Type 0
IsAnswered model (j, v) = (v ≡ some (model j.text)) ⊎ ((v ≡ none) × (j.computes ≡ false))

-- Every vector that the cache holds for one of the texts is the text's embedding.
abbrev pub IsCoherent : (Text → List ℕ) → (Text → Bytes) → (Text → Type 0) → VectorCache → Type 0
IsCoherent model hash Used cache =
    (text : Text) (v : List ℕ)
    → Used text
    → get_entry (hash text) cache.entries ≡ some v
    → v ≡ model text

flush-entries :
    (written : Bool) (cache : VectorCache) (j : Bytes) (v : List ℕ)
    → get_entry j (flush written cache).1.entries ≡ some v
    → get_entry j cache.entries ≡ some v
unfolding flush
flush-entries written cache j v h = ground arith

module _ (model : Text → List ℕ) (hash : Text → Bytes) (Used : Text → Type 0)
    (apart : (s t : Text) → Used s → Used t → hash s ≡ hash t → s ≡ t) where
  inserted-IsCoherent :
      (text : Text) (cache : VectorCache)
      → Used text
      → IsCoherent model hash Used cache
      → IsCoherent model hash Used (insert (hash text) (model text) cache)
  inserted-IsCoherent text cache u c t v used f = elim (dim-cases cache.dim (length (model text))) [
    | inl m ↦
        let g = get_entry-put_entry (hash text) (hash t) (model text) cache.entries in
        let f' : get_entry (hash t) (put_entry (hash text) (model text) cache.entries) ≡ some v =
          (rw (insert_fitting (hash text) (model text) cache m) at f) in
        elim (Bool-cases (hash text == hash t)) [
          | inl e ↦
              let same = apart text t u used (eq_sound (hash text) (hash t) e) in
              ground (arith, g, f', ap model same)
          | inr e ↦ c t v used (ground (arith, g, f'))
        ]
    | inr (n, m) ↦ c t v used (rw (insert_misfit (hash text) (model text) cache n m) at f)
  ]

  vector_for-IsCoherent :
      (j : Job) (cache : VectorCache)
      → Used j.text
      → IsCoherent model hash Used cache
      → let (v, cache') = vector_for (embed_in model j) hash j.written j.text cache in
        IsAnswered model (j, v) × IsCoherent model hash Used cache'
  unfolding vector_for
  vector_for-IsCoherent j cache u c = elim (Option-cases (get_entry (hash j.text) cache.entries)) [
    | inl e ↦ elim (Bool-cases j.computes) [
      | inl works ↦
          rw (e, works, vector_for)
            (
              inl refl,
              λ t v used f.
                  inserted-IsCoherent j.text cache u c t v used
                    (flush-entries j.written _ (hash t) v f),
            )
      | inr fails ↦ rw (e, fails, vector_for) (inr (refl, refl), c)
    ]
    | inr (v, e) ↦ rw (e, vector_for) (inl (ap some (c j.text v u e)), c)
  ]

  -- Where the hash tells the texts in use apart, each of any row of requests for their vectors is
  -- answered with the text's embedding, from the cache or not, or with an error where the
  -- model fails; and the cache still holds only embeddings for these texts.
  pub vectors_for_lem :
      (jobs : List Job) (cache : VectorCache)
      → All (λ j. Used j.text) jobs
      → IsCoherent model hash Used cache
      → let (answers, cache') = vectors_for model hash jobs cache in
        All (IsAnswered model) answers × IsCoherent model hash Used cache'
  unfolding vectors_for
  vectors_for_lem [] cache us c = (tt, c)
  vectors_for_lem (j ∷ js) cache (u, us) c =
      let (answered, c') = vector_for-IsCoherent j cache u c in
      let (rest, last) = vectors_for_lem js _ us c' in ((answered, rest), last)
