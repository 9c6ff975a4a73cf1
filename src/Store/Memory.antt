-- ===== src/Store/Memory.antt =====
-- A repository in memory, in which the laws of the files hold, and the YAML of one entry.
use kyb.Common.{
  some_same, true, false, not, ◌&&◌, ◌||◌, ◌≡◌, inl, inr, refl, sym, ap, ◌∙◌, Option, none, some,
  [], ◌∷◌, ◌++◌, Text, codes, ◌==◌, if◌then◌else◌, Bool-cases, arith, byte_len, starts_with,
  trim_end, is_whitespace, strip_prefix,
}
use kyb.Common.Int.{pos}
use kyb.Deadline.{is_some}
use kyb.Entry.{Entry, empty_entry, is_valid_key, ends_with_dash}
use kyb.Entry.Comparing.{same_content}
use kyb.Entry.Equality.{same_texts, same_windows, same_deadline}
use kyb.Entry.Markdown.{Yaml, meta_of, find_fence, skip_newlines}
use kyb.Entry.Reading.{from_markdown-to_markdown}
use kyb.Store.{Commit, Repo}
use kyb.Store.Writing.{Files, ReadBack}

abbrev pub Memory : Type 0
Memory = Text → Option Text

abbrev pub commit_0 : Commit
commit_0 = record { sha = codes "c0"; committed_at = pos 0 }

abbrev pub memory : Repo
memory = record {
  State = Memory;
  is_file = λ r p. is_some (r p);
  read = λ r p. r p;
  write = λ p t r. (true, λ q. if p == q then some t else r q);
  remove = λ p r. some (λ q. if p == q then none else r q);
  commit_path = λ p m r. some (commit_0, r);
}

pair_same :
    {A B : Type 0} (a c : A) (b d : B)
    → ◌≡◌ {A = Option (A × B)} (some (a, b)) (some (c, d))
    → b ≡ d
pair_same a c b d h = ground arith

pub memory-Files : Files memory
memory-Files = record {
  is_file-write = λ p t q r r' h. sym (ap (λ z. is_some (z.1 q)) h) ∙ written p t q r;
  read-write = λ p t q r r' h. sym (ap (λ z. z.1 q) h);
  is_file-remove = λ p q r r' h. sym (ap (λ z. is_some (z q)) (some_same h)) ∙ removed p q r;
  read-remove = λ p q r r' h ne. sym (ap (λ z. z q) (some_same h)) ∙ kept p q r ne;
  is_file-commit = λ p m q r c r' h. sym (ap (λ z. is_some (z q)) (pair_same _ _ r r' h));
  read-commit = λ p m q r c r' h. sym (ap (λ z. z q) (pair_same _ _ r r' h));
}
  where
    written :
        (p t q : Text) (r : Memory)
        → is_some (if p == q then some t else r q) ≡ (p == q || is_some (r q))
    written p t q r = elim (Bool-cases (p == q)) [ inl e ↦ rw e refl | inr e ↦ rw e refl ]

    removed :
        (p q : Text) (r : Memory)
        → is_some (if p == q then none else r q) ≡ (not (p == q) && is_some (r q))
    removed p q r = elim (Bool-cases (p == q)) [ inl e ↦ rw e refl | inr e ↦ rw e refl ]

    kept : (p q : Text) (r : Memory) → p == q ≡ false → (if p == q then none else r q) ≡ r q
    kept p q r ne = rw ne refl

abbrev pub note : Entry
note = record empty_entry { key = codes "a"; title = codes "t"; body = codes "b" }

abbrev pub dated : Entry
dated = record note { updated_at = codes "d" }

abbrev pub one_yaml : Yaml
one_yaml = record {
  to_string = λ m. codes "k\n";
  from_str = λ s. if s == codes "k" then some (meta_of dated) else none;
}

pub find_fence-plain : find_fence (codes "k" ++ (10 ∷ [])) ≡ none
unfolding find_fence strip_prefix
find_fence-plain = refl

pub yaml-read : one_yaml.from_str (codes "k") ≡ some (meta_of dated)
unfolding ◌==◌
yaml-read = refl

pub note-valid : is_valid_key note.key ≡ true
unfolding is_valid_key ends_with_dash byte_len starts_with
note-valid = refl

pub dated-ReadBack : ReadBack one_yaml memory memory-Files dated dated
dated-ReadBack =
    from_markdown-to_markdown one_yaml dated (codes "k") refl find_fence-plain yaml-read
    ∙ unfold trim_end skip_newlines is_whitespace in refl

pub same_content-dated : same_content dated note ≡ true
unfolding same_content same_texts same_windows same_deadline ◌==◌ trim_end is_whitespace
same_content-dated = refl
