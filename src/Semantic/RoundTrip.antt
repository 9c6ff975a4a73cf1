-- ===== src/Semantic/RoundTrip.antt =====
-- What `flush` writes is what `read` reads, also when the end of the file is torn off.
use kyb.Common.{
  ℕ, suc, zero, ◌+◌, ◌≤◌, ◌<◌, Bool, true, false, ◌≡◌, ◌≢◌, refl, none, some, List, [], ◌∷◌, ◌++◌,
  eq_refl, eq_iff, length, length-append, All, arith, ok, inl, inr, ap, sym, ◌∙◌, Option-cases,
}
use Prim.Native.Nat.{◌*◌}
use mathlib.Core.List.{append_assoc, append-nil}
use kyb.Semantic.Cache.{
  Bytes, VectorCache, magic, to_le_bytes, from_le_bytes, split_at, floats, put_entry, read_records,
  read, opened, float_bytes, record_bytes, file_bytes,
}

abbrev pub IsWord : ℕ → Type 0
IsWord n = n < 0x1_0000_0000

word_round_trip : (n : ℕ) → IsWord n → from_le_bytes (to_le_bytes n) ≡ n
unfolding from_le_bytes to_le_bytes
word_round_trip n h = omega arith

floats-word : (n : ℕ) (rest : Bytes) → IsWord n → floats (to_le_bytes n ++ rest) ≡ n ∷ floats rest
unfolding floats to_le_bytes
floats-word n rest h = ap (λ x. x ∷ floats rest) (word_round_trip n h)

floats-float_bytes : (v : List ℕ) → All IsWord v → floats (float_bytes v) ≡ v
unfolding float_bytes
floats-float_bytes [] h = unfold floats in refl
floats-float_bytes (f ∷ fs) (h, hs) =
    floats-word f (float_bytes fs) h ∙ ap (λ r. f ∷ r) (floats-float_bytes fs hs)

length-float_bytes : (v : List ℕ) → length (float_bytes v) ≡ length v * 4
unfolding float_bytes to_le_bytes
length-float_bytes [] = refl
length-float_bytes (f ∷ fs) = omega (arith, length-float_bytes fs)

split_at-append : (xs ys : Bytes) → split_at (length xs) (xs ++ ys) ≡ some (xs, ys)
unfolding split_at
split_at-append [] ys = refl
split_at-append (x ∷ xs) ys = ground (arith, split_at-append xs ys)

split_at_exact : (n : ℕ) (xs ys : Bytes) → length xs ≡ n → split_at n (xs ++ ys) ≡ some (xs, ys)
split_at_exact n xs ys e = rw (← e) (split_at-append xs ys)

length-to_le_bytes : (n : ℕ) → length (to_le_bytes n) ≡ 4
unfolding to_le_bytes
length-to_le_bytes n = refl

split_at_short : (n : ℕ) (xs : Bytes) → length xs < n → split_at n xs ≡ none
unfolding split_at
split_at_short zero xs h = absurd (omega arith)
split_at_short (suc n) [] h = refl
split_at_short (suc n) (x ∷ xs) h = ground (arith, split_at_short n xs)

split_at_rest :
    (n : ℕ) (xs got rest : Bytes) → split_at n xs ≡ some (got, rest) → length xs ≡ n + length rest
unfolding split_at
split_at_rest zero xs got rest h = ground arith
split_at_rest (suc n) [] got rest h = ground arith
split_at_rest (suc n) (x ∷ xs) got rest h = elim (Option-cases (split_at n xs)) [
  | inl e ↦ ground arith
  | inr ((g, r), e) ↦ ground (arith, split_at_rest n xs g r e)
]

read_records-step :
    (fuel dim : ℕ) (bs key after raw rest : Bytes) (es : List (Bytes × List ℕ))
    → split_at 20 bs ≡ some (key, after)
    → split_at (dim * 4) after ≡ some (raw, rest)
    → read_records (suc fuel) dim bs es ≡ read_records fuel dim rest (put_entry key (floats raw) es)
unfolding read_records
read_records-step fuel dim bs key after raw rest es e f = ground arith

-- A tail that holds no whole record adds nothing.
read_records-tail :
    (fuel dim : ℕ) (tail : Bytes) (es : List (Bytes × List ℕ))
    → length tail < 20 + dim * 4
    → read_records fuel dim tail es ≡ es
unfolding read_records
read_records-tail zero dim tail es h = refl
read_records-tail (suc fuel) dim tail es h = elim (Option-cases (split_at 20 tail)) [
  | inl e ↦ ground arith
  | inr ((key, after), e) ↦
      let f = split_at_short (dim * 4) after (omega (arith, split_at_rest 20 tail key after e)) in
      ground (arith, f)
]

-- What the cache holds fits the file: hashes of 20 bytes, vectors of one dimension, and 32-bit floats.
abbrev pub Fits : ℕ → Bytes × List ℕ → Type 0
Fits dim e = (length e.0 ≡ 20) × (length e.1 ≡ dim) × All IsWord e.1

abbrev puts : List (Bytes × List ℕ) → List (Bytes × List ℕ) → List (Bytes × List ℕ)
puts [] acc = acc
puts ((k, v) ∷ es) acc = puts es (put_entry k v acc)

read_records-record_bytes :
    (fuel dim : ℕ) (es acc : List (Bytes × List ℕ)) (tail : Bytes)
    → All (Fits dim) es
    → length tail < 20 + dim * 4
    → length (record_bytes es ++ tail) ≤ fuel
    → read_records fuel dim (record_bytes es ++ tail) acc ≡ puts es acc
unfolding record_bytes
read_records-record_bytes fuel dim [] acc tail fits short enough =
    read_records-tail fuel dim tail acc short
read_records-record_bytes zero dim ((k, v) ∷ es) acc tail (f, fs) short enough = absurd (
    omega (
      arith,
      f.0,
      length-append k (float_bytes v ++ record_bytes es),
      length-append (k ++ (float_bytes v ++ record_bytes es)) tail,
    ))
read_records-record_bytes (suc fuel) dim ((k, v) ∷ es) acc tail (f, fs) short enough =
    let rest = record_bytes es ++ tail in
    let shape : (k ++ (float_bytes v ++ record_bytes es)) ++ tail ≡ k ++ (float_bytes v ++ rest) =
      append_assoc k (float_bytes v ++ record_bytes es) tail
      ∙ ap (λ r. k ++ r) (append_assoc (float_bytes v) (record_bytes es) tail) in
    let raw_length : length (float_bytes v) ≡ dim * 4 =
      length-float_bytes v ∙ ap (λ n. n * 4) f.1 in
    rw shape (
      read_records-step fuel dim (k ++ (float_bytes v ++ rest)) k (float_bytes v ++ rest)
        (float_bytes v) rest acc (rw (← f.0) (split_at-append k (float_bytes v ++ rest)))
        (rw (← raw_length) (split_at-append (float_bytes v) rest))
      ∙ rw (floats-float_bytes v f.2) (
          read_records-record_bytes fuel dim es (put_entry k v acc) tail fs short (
            omega (
              arith,
              f.0,
              enough,
              ap length shape,
              length-append k (float_bytes v ++ rest),
              length-append (float_bytes v) rest,
            ))))

abbrev pub NotIn : Bytes → List (Bytes × List ℕ) → Type 0
NotIn k es = All (λ e. e.0 ≢ k) es

-- No hash is held twice, as in any map.
abbrev pub DistinctKeys : List (Bytes × List ℕ) → Type 0
DistinctKeys [] = Unit
DistinctKeys ((k, v) ∷ es) = NotIn k es × DistinctKeys es

put_entry_fresh :
    (k : Bytes) (v : List ℕ) (acc : List (Bytes × List ℕ))
    → NotIn k acc
    → put_entry k v acc ≡ acc ++ (k, v) ∷ []
unfolding put_entry
put_entry_fresh k v [] h = refl
put_entry_fresh k v ((j, w) ∷ acc) (h, hs) = ground (arith, eq_iff j k, put_entry_fresh k v acc hs)

NotIn-snoc :
    (j k : Bytes) (v : List ℕ) (acc : List (Bytes × List ℕ))
    → NotIn j acc
    → j ≢ k
    → NotIn j (acc ++ (k, v) ∷ [])
NotIn-snoc j k v [] h ne = (λ e. ne (sym e), tt)
NotIn-snoc j k v (a ∷ acc) (h, hs) ne = (h, NotIn-snoc j k v acc hs ne)

All-NotIn-snoc :
    (k : Bytes) (v : List ℕ) (acc es : List (Bytes × List ℕ))
    → All (λ e. NotIn e.0 acc) es
    → NotIn k es
    → All (λ e. NotIn e.0 (acc ++ (k, v) ∷ [])) es
All-NotIn-snoc k v acc [] h n = tt
All-NotIn-snoc k v acc (e ∷ es) (h, hs) (n, ns) =
    (NotIn-snoc e.0 k v acc h n, All-NotIn-snoc k v acc es hs ns)

puts-append :
    (es acc : List (Bytes × List ℕ))
    → DistinctKeys es
    → All (λ e. NotIn e.0 acc) es
    → puts es acc ≡ acc ++ es
puts-append [] acc d h = sym (append-nil acc)
puts-append ((k, v) ∷ es) acc (n, d) (h, hs) = rw (put_entry_fresh k v acc h) (
    puts-append es (acc ++ (k, v) ∷ []) d (All-NotIn-snoc k v acc es hs n)
    ∙ append_assoc acc ((k, v) ∷ []) es)

All-NotIn-nil : (es : List (Bytes × List ℕ)) → All (λ e. NotIn e.0 []) es
All-NotIn-nil [] = tt
All-NotIn-nil (e ∷ es) = (tt, All-NotIn-nil es)

-- A cache as the service holds it once it has a vector.
pub record IsValid (cache : VectorCache) : Type 0 where
  pub fingerprint_short : IsWord (length cache.fingerprint)
  pub dim_positive : 0 < cache.dim
  pub dim_plausible : cache.dim ≤ 8192
  pub fits : All (Fits cache.dim) cache.entries
  pub distinct : DistinctKeys cache.entries

-- `read` finds in the bytes that `flush` writes for a valid cache, followed by any torn record,
-- exactly the entries of the cache, when it is opened with the same fingerprint.
pub read-file_bytes :
    (is_utf8 : Bytes → Bool) (cache : VectorCache) (torn : Bytes)
    → IsValid cache
    → is_utf8 cache.fingerprint ≡ true
    → length torn < 20 + cache.dim * 4
    → read is_utf8 (file_bytes cache ++ torn) (opened cache.fingerprint)
      ≡ ok (record cache { dirty = false })
unfolding read file_bytes
read-file_bytes is_utf8 cache torn v utf8 short =
    let recs = record_bytes cache.entries ++ torn in
    let fp = cache.fingerprint in
    let after_fp = to_le_bytes cache.dim ++ recs in
    let after_len = fp ++ after_fp in
    let after_magic = to_le_bytes (length fp) ++ after_len in
    let e1 = split_at_exact 8 magic after_magic refl in
    let e2 = split_at_exact 4 (to_le_bytes (length fp)) after_len (length-to_le_bytes _) in
    let e3 = split_at_exact (length fp) fp after_fp refl in
    let e4 = split_at_exact 4 (to_le_bytes cache.dim) recs (length-to_le_bytes _) in
    let dim_round_trip = word_round_trip cache.dim (omega (arith, v.dim_plausible)) in
    let entries : read_records (length recs) cache.dim recs [] ≡ cache.entries =
      read_records-record_bytes (length recs) cache.dim cache.entries [] torn v.fits short
        (omega arith)
      ∙ puts-append cache.entries [] v.distinct (All-NotIn-nil cache.entries) in
    let shape : file_bytes cache ++ torn ≡ magic ++ after_magic = simp append_assoc in
    rw
      (
        shape,
        e1,
        eq_refl magic,
        e2,
        word_round_trip (length fp) v.fingerprint_short,
        e3,
        utf8,
        eq_refl fp,
        e4,
        dim_round_trip,
      )
      (ground (arith, entries))
