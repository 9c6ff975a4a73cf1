-- ===== src/Store/Paths.antt =====
-- The paths of entries: each belongs to one key.
use kyb.Common.{
  ℕ, true, false, ◌||◌, ◌≡◌, ◌≢◌, ◌⊎◌, ◌↔◌, refl, sym, ap, ◌∙◌, inl, inr, Option, none, some, [],
  ◌∷◌, ◌++◌, Text, ◌==◌, eq_sound, eq_refl, eqb, length, length-append, all, Bool-cases, arith,
}
use kyb.Entry.{is_valid_key, is_key_char}
use kyb.Store.{
  dir_for_key, extension, file_rel, legacy_rel, has_slash, last_segment, strip_suffix, no_suffix,
  of_path, key_of_path,
}

has_slash-append : (s t : Text) → has_slash (s ++ t) ≡ (has_slash s || has_slash t)
has_slash-append [] t = refl
has_slash-append (c ∷ s) t = ground (arith, has_slash-append s t)

key_chars : (s : Text) → all is_key_char s ≡ true → has_slash s ≡ false
key_chars [] h = refl
key_chars (c ∷ s) h = ground (arith, key_chars s)

pub is_valid_key-no_slash : (k : Text) → is_valid_key k ≡ true → has_slash k ≡ false
is_valid_key-no_slash k h = key_chars k (unfold is_valid_key in ground (arith, h))

last_segment-behind : (d s : Text) → has_slash s ≡ false → last_segment (d ++ (47 ∷ s)) ≡ s
unfolding last_segment
last_segment-behind [] s h = rw h refl
last_segment-behind (c ∷ d) s h =
    let slash : has_slash (d ++ (47 ∷ s)) ≡ true = has_slash-append d (47 ∷ s) ∙ ground arith in
    rw slash (last_segment-behind d s h)

last_segment-whole : (s : Text) → has_slash s ≡ false → last_segment s ≡ s
unfolding last_segment
last_segment-whole [] h = refl
last_segment-whole (c ∷ s) h =
    let (other, none_behind) : (eqb c 47 ≡ false) × (has_slash s ≡ false) =
      (ground arith, ground arith) in
    rw (none_behind, other) refl

longer : (c : ℕ) (s : Text) → extension == c ∷ (s ++ extension) ≡ false
longer c s = elim (Bool-cases (extension == c ∷ (s ++ extension))) [
  | inl e ↦
      let same = ap length (eq_sound extension (c ∷ (s ++ extension)) e) in
      let more = length-append s extension in ground arith
  | inr e ↦ e
]

strip_suffix-append : (s : Text) → strip_suffix extension (s ++ extension) ≡ some s
unfolding strip_suffix ◌==◌
strip_suffix-append [] = refl
strip_suffix-append (c ∷ s) =
    ap (λ o. no_suffix c (s ++ extension) extension o) (strip_suffix-append s)
    ∙ rw (longer c s) refl

no_slash_in_rel : (k : Text) → has_slash k ≡ false → has_slash (k ++ extension) ≡ false
no_slash_in_rel k h = has_slash-append k extension ∙ rw h refl

pub key_of_path-file_rel : (k : Text) → has_slash k ≡ false → key_of_path (file_rel k) ≡ some k
unfolding key_of_path
key_of_path-file_rel k h =
    let tail : last_segment (file_rel k) ≡ k ++ extension =
      unfold file_rel in
      last_segment-behind (dir_for_key k) (k ++ extension) (no_slash_in_rel k h) in
    rw (tail, strip_suffix-append k, eq_refl (file_rel k)) refl

pub key_of_path-legacy_rel : (k : Text) → has_slash k ≡ false → key_of_path (legacy_rel k) ≡ some k
unfolding key_of_path
key_of_path-legacy_rel k h =
    let tail : last_segment (legacy_rel k) ≡ k ++ extension =
      unfold legacy_rel in last_segment-whole (k ++ extension) (no_slash_in_rel k h) in
    rw (tail, strip_suffix-append k, eq_refl (legacy_rel k)) (ground arith)

of_path_sound :
    (path k : Text) (o : Option Text)
    → of_path path o ≡ some k
    → (path ≡ file_rel k) ⊎ (path ≡ legacy_rel k)
of_path_sound path k none h = ground arith
of_path_sound path k (some j) h = elim (Bool-cases (path == file_rel j)) [
  | inl e ↦ inl (ground (arith, eq_sound path (file_rel j) e))
  | inr ne ↦ elim (Bool-cases (path == legacy_rel j)) [
    | inl e ↦ inr (ground (arith, eq_sound path (legacy_rel j) e))
    | inr ne' ↦ ground arith
  ]
]

-- A path belongs to a valid key exactly if it is the path of that key in the present layout or in
-- the former one.
pub key_of_path_iff :
    (path k : Text)
    → is_valid_key k ≡ true
    → (key_of_path path ≡ some k) ↔ ((path ≡ file_rel k) ⊎ (path ≡ legacy_rel k))
unfolding key_of_path
key_of_path_iff path k v =
    let plain = is_valid_key-no_slash k v in
    (
      λ h. of_path_sound path k (strip_suffix extension (last_segment path)) h,
      λ w. elim w [
        | inl e ↦ rw e (key_of_path-file_rel k plain)
        | inr e ↦ rw e (key_of_path-legacy_rel k plain)
      ],
    )

some_inj : (a b : Text) → some a ≡ some b → a ≡ b
some_inj a b h = ground arith

-- Two keys have different files, and no file of one is the former file of another.
pub file_rel-other :
    (k j : Text)
    → has_slash k ≡ false
    → has_slash j ≡ false
    → k ≢ j
    → file_rel k == file_rel j ≡ false
file_rel-other k j p q ne = elim (Bool-cases (file_rel k == file_rel j)) [
  | inl e ↦
      let same = eq_sound (file_rel k) (file_rel j) e in
      absurd (
        ne (
          some_inj k j
            (sym (key_of_path-file_rel k p) ∙ ap key_of_path same ∙ key_of_path-file_rel j q)))
  | inr e ↦ e
]

pub file_rel-legacy : (k j : Text) → has_slash j ≡ false → file_rel k == legacy_rel j ≡ false
file_rel-legacy k j q = elim (Bool-cases (file_rel k == legacy_rel j)) [
  | inl e ↦
      let same = eq_sound (file_rel k) (legacy_rel j) e in
      let slash : has_slash (file_rel k) ≡ true =
        unfold file_rel in
        has_slash-append (dir_for_key k) (47 ∷ (k ++ extension)) ∙ ground arith in
      let plain : has_slash (legacy_rel j) ≡ false = unfold legacy_rel in no_slash_in_rel j q in
      let clash = sym slash ∙ ap has_slash same ∙ plain in ground (arith, clash)
  | inr e ↦ e
]

-- Paths of different keys are different.
pub path-other :
    (p q k j : Text) → key_of_path p ≡ some k → key_of_path q ≡ some j → k ≢ j → p == q ≡ false
path-other p q k j a b ne = elim (Bool-cases (p == q)) [
  | inl e ↦ absurd (ne (some_inj k j (sym a ∙ ap key_of_path (eq_sound p q e) ∙ b)))
  | inr e ↦ e
]

pub legacy_rel-file : (k j : Text) → has_slash k ≡ false → legacy_rel k == file_rel j ≡ false
legacy_rel-file k j h = elim (Bool-cases (legacy_rel k == file_rel j)) [
  | inl e ↦
      let same = sym (eq_sound (legacy_rel k) (file_rel j) e) in
      let equal : file_rel j == legacy_rel k ≡ true = rw same (eq_refl (legacy_rel k)) in
      let clash = sym (file_rel-legacy j k h) ∙ equal in ground (arith, clash)
  | inr e ↦ e
]
