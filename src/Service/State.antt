-- ===== src/Service/State.antt =====
-- main.rs: the state of the server that a write reads and sets, and its reply. The history in git and
-- the index (crates git2, tantivy) are interfaces.
use kyb.Common.{ℕ, suc, Bool, not, Option, List, [], ◌∷◌, ◌++◌, Text, retain, any, eqb}
use Prim.Native.Nat.{◌%◌, ◌^◌}
use kyb.Common.Int.{ℤ}
use kyb.Deadline.{Chrono}
use kyb.Entry.Markdown.{Yaml}
use kyb.Entry.{Entry}
use kyb.Entry.Validation.{EntryError}
use kyb.Store.{Repo}
use kyb.Service.Parents.{ChainError}
use kyb.Service.Requests.{Refusal, Extra}

-- What is read of the history: the last version of a key, whether it has any, and the keys with one.
pub record Past (repo : Repo) : Type 0 where
  pub latest : Repo.State repo → Text → Option Entry
  pub has_history : Repo.State repo → Text → Bool
  pub known : Repo.State repo → List Text
  pub rev_time : Repo.State repo → Text → Option ℤ

-- A call that can fail says whether it worked, and gives the state that it leaves in either case.
pub record IndexWriter : Type 1 where
  pub State : Type 0
  pub upsert_head : Entry → Text → ℤ → State → Bool × State
  pub commit_and_reload : State → Bool × State
  pub delete_head : Text → State → State
  pub retract : Text → ℤ → State → State

pub data Action : Type 0 where
  create update : Action

pub record Landed : Type 0 where
  pub key : Text
  pub sha : Option Text
  pub action : Option Action
  pub similar : List Text
  pub revived : Bool
  pub extra : Extra
  pub archive_sha : Option Text

-- `done` is the reply with the status OK.
pub data Reply : Type 0 where
  refused : Refusal → Reply
  invalid : EntryError → Reply
  cycle : ChainError → Reply
  failed : Reply
  not_indexed : Reply
  done : Landed → Reply

-- What the server stands on: the clock's library, the regular expressions, the length that a new key
-- is cut to in a comparison, the YAML, the repository with its history, and the index.
pub record Env : Type 1 where
  pub chrono : Chrono
  pub regex_find : Text → Text → Option Text
  pub cap_of : ℕ → ℕ
  pub yaml : Yaml
  pub repo : Repo
  pub past : Past repo
  pub index : IndexWriter

pub record AppState (env : Env) : Type 0 where
  pub store : Repo.State env.repo
  pub docs : IndexWriter.State env.index
  pub history_gen : ℕ
  pub archived_since : List (ℕ × Text)
  pub note_seq : ℕ

-- `fetch_add` on an `AtomicU64`.
abbrev pub fetch_add : ℕ → ℕ
fetch_add n = suc n % 2 ^ 64

module _ {env : Env} where
  unfoldable pub note_archived : Text → AppState env → AppState env
  note_archived key st = record st {
    note_seq = fetch_add st.note_seq;
    archived_since = st.archived_since ++ ((st.note_seq, key) ∷ []);
  }

  unfoldable pub settle_notes : List (ℕ × Text) → AppState env → AppState env
  settle_notes read st = record st {
    archived_since = retain (λ note. not (any (λ r. eqb r.0 note.0) read)) st.archived_since;
  }

  unfoldable pub note_write : AppState env → AppState env
  note_write st = record st { history_gen = fetch_add st.history_gen }
