-- ===== src/Entry/Reading.antt =====
-- A file that was written is read back.
use kyb.Common.{
  ℕ, ◌≡◌, refl, ap, ◌∙◌, inl, inr, Option, none, some, [], ◌∷◌, ◌++◌, Text, trim_end, eqb,
  strip_prefix, is_whitespace, ok, arith, Bool-cases,
}
use kyb.Entry.{Entry}
use kyb.Entry.Markdown.{
  Meta, Yaml, meta_of, entry_of, opening, fence, cons_front, or_later, find_fence, skip_newlines,
  from_markdown, to_markdown,
}

snoc-append : (w t : Text) → (w ++ 10 ∷ []) ++ t ≡ w ++ 10 ∷ t
snoc-append [] t = refl
snoc-append (c ∷ w) t = ap (λ s. c ∷ s) (snoc-append w t)

or_later-none :
    (o : Option Text) (c : ℕ) (later : Option (Text × Text))
    → or_later o (cons_front c later) ≡ none
    → (o ≡ none) × (later ≡ none)
or_later-none none c none h = (refl, refl)
or_later-none none c (some p) h = ground arith
or_later-none (some t) c later h = ground arith

-- Where no fence begins before the line feed, none begins in the characters that follow it.
no_fence :
    (c : ℕ) (w t : Text)
    → strip_prefix fence (c ∷ (w ++ (10 ∷ []))) ≡ none
    → strip_prefix fence (c ∷ (w ++ (fence ++ t))) ≡ none
unfolding strip_prefix
no_fence c [] t h = ground arith
no_fence c (a ∷ []) t h = ground arith
no_fence c (a ∷ b ∷ []) t h = ground arith
no_fence c (a ∷ b ∷ d ∷ []) t h = ground arith
no_fence c (a ∷ b ∷ d ∷ e ∷ w) t h = ground arith

find_fence-front :
    (w t : Text) → find_fence (w ++ 10 ∷ []) ≡ none → find_fence (w ++ (fence ++ t)) ≡ some (w, t)
unfolding find_fence
find_fence-front [] t h = unfold strip_prefix in refl
find_fence-front (c ∷ w) t h =
    let (here, later) = or_later-none _ c _ h in
    rw (no_fence c w t here, find_fence-front w t later) refl

trim_end-snoc : (s : Text) → trim_end (s ++ 10 ∷ []) ≡ trim_end s
unfolding trim_end is_whitespace
trim_end-snoc [] = refl
trim_end-snoc (c ∷ s) = rw (trim_end-snoc s) refl

skip_newlines-snoc :
    (s : Text) → trim_end (skip_newlines (s ++ 10 ∷ [])) ≡ trim_end (skip_newlines s)
unfolding skip_newlines
skip_newlines-snoc [] = refl
skip_newlines-snoc (c ∷ s) =
    let later = skip_newlines-snoc s in
    elim (Bool-cases (eqb c 10)) [ inl e ↦ rw e later | inr e ↦ rw e (trim_end-snoc (c ∷ s)) ]

read_front :
    (yaml : Yaml) (front back : Text) (meta : Meta)
    → find_fence (front ++ (fence ++ back)) ≡ some (front, back)
    → yaml.from_str front ≡ some meta
    → from_markdown yaml (opening ++ (front ++ (fence ++ back)))
      ≡ ok (entry_of meta (trim_end (skip_newlines back)))
unfolding from_markdown strip_prefix
read_front yaml front back meta found read = rw (found, read) refl

file_text :
    (yaml : Yaml) (e : Entry) (front : Text)
    → yaml.to_string (meta_of e) ≡ front ++ 10 ∷ []
    → to_markdown yaml e ≡ opening ++ (front ++ (fence ++ (10 ∷ (trim_end e.body ++ (10 ∷ [])))))
unfolding to_markdown
file_text yaml e front written =
    ap (λ y. opening ++ (y ++ (opening ++ (10 ∷ (trim_end e.body ++ (10 ∷ [])))))) written
    ∙ ap (λ r. opening ++ r) (snoc-append front (opening ++ (10 ∷ (trim_end e.body ++ (10 ∷ [])))))

-- With YAML that is read back, that ends in a line feed and has no line of three dashes, the file of
-- an entry is read as that entry, less line feeds before its body and white space behind it.
pub from_markdown-to_markdown :
    (yaml : Yaml) (e : Entry) (front : Text)
    → yaml.to_string (meta_of e) ≡ front ++ 10 ∷ []
    → find_fence (front ++ 10 ∷ []) ≡ none
    → yaml.from_str front ≡ some (meta_of e)
    → from_markdown yaml (to_markdown yaml e)
      ≡ ok (record e { body = trim_end (skip_newlines (trim_end e.body)) })
unfolding skip_newlines
from_markdown-to_markdown yaml e front written plain read =
    let body = trim_end e.body in
    let back : Text = 10 ∷ (body ++ (10 ∷ [])) in
    ap (from_markdown yaml) (file_text yaml e front written)
    ∙ read_front yaml front back (meta_of e) (find_fence-front front back plain) read
    ∙ ap (λ b. ok (entry_of (meta_of e) b)) (skip_newlines-snoc body)
