-- ===== src/Auth/Cached.antt =====
-- auth.rs: `Book::load` and `Auth::book`, the book as it is on disk, re-read when the file's
-- modification time differs from the one that is held. The parser (crate serde_json) is an argument.
use kyb.Common.{
  ℕ, Bool, true, false, ◌≡◌, refl, Option, none, some, List, [], ◌∷◌, Text, trim, is_empty, All,
  ◌≢◌, ◌⊎◌, subst, if◌then◌else◌, arith, eqb, Bool-cases, Option-cases, sym, ◌∙◌, inl, inr,
}
use kyb.Auth.Book.{Book, empty_book}

-- What `read_to_string` returns.
pub data FileRead : Type 0 where
  contents : Text → FileRead
  not_found failed : FileRead

-- `load`; `none` is an error.
unfoldable pub load : (Text → Option Book) → FileRead → Option Book
load parse (contents s) = if is_empty (trim s) then some empty_book else parse s
load parse not_found = some empty_book
load parse failed = none

-- The file at the moment of a request: its modification time, if it can be read, and its text.
pub record Disk : Type 0 where
  pub modified : Option ℕ
  pub file : FileRead

-- `Auth.book`: what is held between requests.
pub record Held : Type 0 where
  pub modified : Option ℕ
  pub book : Book

unfoldable pub initial : Held
initial = record { modified = none; book = empty_book }

abbrev same_time : Option ℕ → Option ℕ → Bool
same_time none none = true
same_time (some a) (some b) = eqb a b
same_time _ _ = false

abbrev pub or_nobody : Option Book → Book
or_nobody none = empty_book
or_nobody (some b) = b

unfoldable pub book : (Text → Option Book) → Held → Disk → Book × Held
book parse held disk =
    if same_time held.modified disk.modified
    then (held.book, held)
    else elim (load parse disk.file) [
      | some b ↦ (b, record { modified = disk.modified; book = b })
      | none ↦ (empty_book, held)
    ]

-- What is held after requests that found these states of the file, the last one first.
unfoldable pub after : (Text → Option Book) → List Disk → Held
after parse [] = initial
after parse (d ∷ before) = (book parse (after parse before) d).1

-- One of these states of the file has that modification time and loads as that book.
abbrev pub Loaded : (Text → Option Book) → Option ℕ → Book → List Disk → Type 0
Loaded parse time b [] = ⊥
Loaded parse time b (e ∷ es) =
    ((e.modified ≡ time) × (load parse e.file ≡ some b)) ⊎ Loaded parse time b es

same_time-eq : (a b : Option ℕ) → same_time a b ≡ true → a ≡ b
same_time-eq none none h = refl
same_time-eq (some a) (some b) h = ground arith
same_time-eq none (some b) h = ground arith
same_time-eq (some a) none h = ground arith

-- What is held is what it was at the start, or one of the states of the file had that book and time.
abbrev IsHeld : (Text → Option Book) → Held → List Disk → Type 0
IsHeld parse held before =
    ((held.modified ≡ none) × (held.book ≡ empty_book))
    ⊎ Loaded parse held.modified held.book before

book_same :
    (parse : Text → Option Book) (held : Held) (d : Disk)
    → same_time held.modified d.modified ≡ true
    → book parse held d ≡ (held.book, held)
unfolding book
book_same parse held d h = rw h refl

book_read :
    (parse : Text → Option Book) (held : Held) (d : Disk) (b : Book)
    → same_time held.modified d.modified ≡ false
    → load parse d.file ≡ some b
    → book parse held d ≡ (b, record { modified = d.modified; book = b })
unfolding book
book_read parse held d b h e = rw (h, e, book) refl

book_unread :
    (parse : Text → Option Book) (held : Held) (d : Disk)
    → same_time held.modified d.modified ≡ false
    → load parse d.file ≡ none
    → book parse held d ≡ (empty_book, held)
unfolding book
book_unread parse held d h e = rw (h, e, book) refl

book-IsHeld :
    (parse : Text → Option Book) (held : Held) (d : Disk) (before : List Disk)
    → IsHeld parse held before
    → IsHeld parse (book parse held d).1 (d ∷ before)
book-IsHeld parse held d before h =
    let still : IsHeld parse held (d ∷ before) = elim h [ inl e ↦ inl e | inr l ↦ inr (inr l) ] in
    let answer : (r : Book × Held)
        → book parse held d ≡ r
        → IsHeld parse r.1 (d ∷ before)
        → IsHeld parse (book parse held d).1 (d ∷ before) =
      λ r e g. subst (λ r. IsHeld parse r.1 (d ∷ before)) (sym e) g in
    elim (Bool-cases (same_time held.modified d.modified)) [
      | inl same ↦ answer _ (book_same parse held d same) still
      | inr other ↦ elim (Option-cases (load parse d.file)) [
        | inl e ↦ answer _ (book_unread parse held d other e) still
        | inr (b, e) ↦ answer _ (book_read parse held d b other e) (inr (inl (refl, e)))
      ]
    ]

after-IsHeld :
    (parse : Text → Option Book) (before : List Disk) → IsHeld parse (after parse before) before
unfolding after initial
after-IsHeld parse [] = inl (refl, refl)
after-IsHeld parse (d ∷ before) =
    book-IsHeld parse (after parse before) d before (after-IsHeld parse before)

not_Loaded :
    (parse : Text → Option Book) (time : Option ℕ) (b : Book) (before : List Disk)
    → All (λ e. e.modified ≢ time) before
    → ¬ Loaded parse time b before
not_Loaded parse time b [] n l = l
not_Loaded parse time b (e ∷ es) (n, ns) (inl l) = n l.0
not_Loaded parse time b (e ∷ es) (n, ns) (inr l) = not_Loaded parse time b es ns l

served :
    (parse : Text → Option Book) (held : Held) (before : List Disk) (d : Disk)
    → IsHeld parse held before
    → let b = (book parse held d).0 in
      (b ≡ or_nobody (load parse d.file))
      ⊎ Loaded parse d.modified b before
      ⊎ ((d.modified ≡ none) × (b ≡ empty_book))
unfolding book
served parse held before d h = elim (Bool-cases (same_time held.modified d.modified)) [
  | inl same ↦
      let time = same_time-eq held.modified d.modified same in
      rw (book_same parse held d same) (elim h [
        | inl (t, b) ↦ inr (inr (sym time ∙ t, b))
        | inr l ↦ inr (inl (subst (λ t. Loaded parse t held.book before) time l))
      ])
  | inr other ↦ elim (Option-cases (load parse d.file)) [
    | inl e ↦ rw (other, e, book) (inl refl)
    | inr (b, e) ↦ rw (other, e, book) (inl refl)
  ]
]

-- Whatever states of the file the requests before found, a request is answered from the book that is
-- on disk at that moment, and from an empty one where it cannot be read; or else from a book that was
-- read from the file when it had the same modification time; or, where the time cannot be read, from
-- an empty one. So a modification time that is read and that no request before has seen is enough for
-- the answer to be the one on disk.
pub book_current :
    (parse : Text → Option Book) (before : List Disk) (d : Disk)
    → let b = (book parse (after parse before) d).0 in
      ((b ≡ or_nobody (load parse d.file))
        ⊎ Loaded parse d.modified b before
        ⊎ ((d.modified ≡ none) × (b ≡ empty_book)))
      × (All (λ e. e.modified ≢ d.modified) before
          → d.modified ≢ none
          → b ≡ or_nobody (load parse d.file))
book_current parse before d =
    let cases = served parse (after parse before) before d (after-IsHeld parse before) in
    (
      cases,
      λ new timed. elim cases [
        | inl e ↦ e
        | inr (inl l) ↦ absurd (not_Loaded parse d.modified _ before new l)
        | inr (inr (t, b)) ↦ absurd (timed t)
      ],
    )
