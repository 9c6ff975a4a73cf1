-- ===== src/Semantic/Cache.antt =====
-- embed.rs: `VectorCache`, the vectors by the hash of their text, and its file. Bytes are numbers
-- below 256, a vector is the list of its floats' bit patterns, and the file's content is a
-- list of bytes. The map is an association list in the order in which `flush` writes it.
use kyb.Common.{
  ℕ, suc, zero, ◌+◌, Bool, true, false, not, ◌||◌, Option, none, some, List, [], ◌∷◌, ◌++◌, Text,
  ◌==◌, length, ltb, eqb, if◌then◌else◌, Result, ok, err, ◌>>=◌, ◌>>◌, ensure,
}
use Prim.Native.Nat.{◌*◌, ◌/◌, ◌%◌}

abbrev pub Bytes : Type 0
Bytes = List ℕ

pub record VectorCache : Type 0 where
  pub fingerprint : Bytes
  pub dim : ℕ
  pub entries : List (Bytes × List ℕ)
  pub dirty : Bool

abbrev pub magic : Bytes
magic = b'K' ∷ b'Y' ∷ b'B' ∷ b'V' ∷ b'E' ∷ b'C' ∷ b'0' ∷ b'1' ∷ []

pub data CacheError : Type 0 where
  truncated not_a_cache not_utf8 other_model implausible : CacheError

-- `u32::to_le_bytes`, `u32::from_le_bytes`; the latter as `try_into` on four bytes.
unfoldable pub to_le_bytes : ℕ → Bytes
to_le_bytes n = n % 256 ∷ n / 256 % 256 ∷ n / 65536 % 256 ∷ n / 16777216 % 256 ∷ []

unfoldable pub from_le_bytes : Bytes → ℕ
from_le_bytes (a ∷ b ∷ c ∷ d ∷ _) = a + 256 * b + 65536 * c + 16777216 * d
from_le_bytes _ = 0

-- The closure `take` of `read`: the next bytes and what follows them, or an error at the end.
unfoldable pub split_at : ℕ → Bytes → Option (Bytes × Bytes)
split_at zero bs = some ([], bs)
split_at (suc n) [] = none
split_at (suc n) (b ∷ bs) = elim (split_at n bs) [
  | none ↦ none
  | some (got, rest) ↦ some (b ∷ got, rest)
]

abbrev or_truncated : Option (Bytes × Bytes) → Result CacheError (Bytes × Bytes)
or_truncated none = err truncated
or_truncated (some p) = ok p

-- `chunks_exact(4)`, each read as a float's bits.
unfoldable pub floats : Bytes → List ℕ
floats (a ∷ b ∷ c ∷ d ∷ rest) = from_le_bytes (a ∷ b ∷ c ∷ d ∷ []) ∷ floats rest
floats _ = []

-- `HashMap::insert` on the entries: an entry of the key is overwritten.
unfoldable pub put_entry : Bytes → List ℕ → List (Bytes × List ℕ) → List (Bytes × List ℕ)
put_entry h v [] = (h, v) ∷ []
put_entry h v ((k, w) ∷ es) = if k == h then (k, v) ∷ es else (k, w) ∷ put_entry h v es

unfoldable pub get_entry : Bytes → List (Bytes × List ℕ) → Option (List ℕ)
get_entry h [] = none
get_entry h ((k, v) ∷ es) = if k == h then some v else get_entry h es

-- The loop of `read` over the records; a half-written tail is dropped.
unfoldable pub read_records : ℕ → ℕ → Bytes → List (Bytes × List ℕ) → List (Bytes × List ℕ)
read_records zero dim bs es = es
read_records (suc fuel) dim bs es = elim (split_at 20 bs) [
  | none ↦ es
  | some (key, after) ↦ elim (split_at (dim * 4) after) [
    | none ↦ es
    | some (raw, rest) ↦ read_records fuel dim rest (put_entry key (floats raw) es)
  ]
]

-- `read` from the bytes of a file that is there; `is_utf8` is the check of `str::from_utf8`. A
-- record takes at least 20 bytes, so the number of bytes bounds the rounds.
unfoldable pub read : (Bytes → Bool) → Bytes → VectorCache → Result CacheError VectorCache
read is_utf8 bytes cache = do
  (m, after_magic) ← or_truncated (split_at 8 bytes)
  ensure (m == magic) not_a_cache
  (fp_len, after_len) ← or_truncated (split_at 4 after_magic)
  (fp, after_fp) ← or_truncated (split_at (from_le_bytes fp_len) after_len)
  ensure (is_utf8 fp) not_utf8
  ensure (fp == cache.fingerprint) other_model
  (dim_bytes, records) ← or_truncated (split_at 4 after_fp)
  let dim = from_le_bytes dim_bytes
  ensure (not (eqb dim 0 || ltb 8192 dim)) implausible
  ok (record cache { dim = dim; entries = read_records (length records) dim records cache.entries })

abbrev pub opened : Bytes → VectorCache
opened fingerprint = record { fingerprint = fingerprint; dim = 0; entries = []; dirty = false }

-- `open`: a file that cannot be used is an empty cache; `none` is a file that is not there.
unfoldable pub open_cache : (Bytes → Bool) → Option Bytes → Bytes → VectorCache
open_cache is_utf8 none fingerprint = opened fingerprint
open_cache is_utf8 (some bytes) fingerprint = elim (read is_utf8 bytes (opened fingerprint)) [
  | ok cache ↦ cache
  | err e ↦ opened fingerprint
]

unfoldable pub insert : Bytes → List ℕ → VectorCache → VectorCache
insert hash vector cache =
    let dim = if eqb cache.dim 0 then length vector else cache.dim in
    if eqb (length vector) dim
    then record cache {
      dim = dim;
      entries = put_entry hash vector cache.entries;
      dirty = elim (get_entry hash cache.entries) [ none ↦ true | some _ ↦ cache.dirty ];
    }
    else record cache { dim = dim }

unfoldable pub float_bytes : List ℕ → Bytes
float_bytes [] = []
float_bytes (f ∷ fs) = to_le_bytes f ++ float_bytes fs

unfoldable pub record_bytes : List (Bytes × List ℕ) → Bytes
record_bytes [] = []
record_bytes ((hash, v) ∷ es) = hash ++ (float_bytes v ++ record_bytes es)

-- The bytes that `flush` writes; `to_le_bytes` takes a number modulo 2^32, as the cast does.
unfoldable pub file_bytes : VectorCache → Bytes
file_bytes cache =
    magic
    ++ (to_le_bytes (length cache.fingerprint)
        ++ (cache.fingerprint ++ (to_le_bytes cache.dim ++ record_bytes cache.entries)))

-- `flush`: what is written, if anything, and the cache after it; `written` says whether the file
-- system took the file.
unfoldable pub flush : Bool → VectorCache → Option Bytes × VectorCache
flush written cache =
    if not cache.dirty || eqb cache.dim 0
    then (none, cache)
    else (some (file_bytes cache), if written then record cache { dirty = false } else cache)

-- The vector of one text in `finish_upsert`: from the cache, or embedded, put into the cache and
-- the cache written; `none` is an error of the embedding, which leaves the cache as it was. `embed` is
-- the model (crate ort), `hash` is `text_hash` (crate git2).
unfoldable pub vector_for :
    (Text → Option (List ℕ))
    → (Text → Bytes)
    → Bool
    → Text
    → VectorCache
    → Option (List ℕ) × VectorCache
vector_for embed hash written text cache = elim (get_entry (hash text) cache.entries) [
  | some v ↦ (some v, cache)
  | none ↦ elim (embed text) [
    | none ↦ (none, cache)
    | some v ↦ (some v, (flush written (insert (hash text) v cache)).1)
  ]
]
