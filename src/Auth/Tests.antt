-- ===== src/Auth/Tests.antt =====
-- Runs of the model, and the theorems at concrete books and requests. The digest of a token is the
-- token itself here.
use kyb.Common.{
  true, false, ◌≡◌, ◌≢◌, refl, ◌⊎◌, Option, none, some, List, [], ◌∷◌, All, Text, codes, ◌==◌, not,
  ◌&&◌, if◌then◌else◌, ok, err, arith, trim, any, ◌↔◌, strip_prefix,
}
use kyb.Auth.{
  read, write, admin, required, Actor, Session, post, need, nothing, forbidden, bearer_token,
  session_of, check_role, decide, anon_of_env,
}
use kyb.Auth.Book.{
  TokenRec, Principal, Book, BookError, empty_book, valid_id, token_rec, new_token, add, issue,
  change_first, find_first, revoke_principal, lookup_in, lookup,
}
use kyb.Auth.Keeping.{Distinct, holds}
use kyb.Auth.Adding.{add-keeps, issue-keeps}
use kyb.Auth.Revoking.{revoke_principal_lem}
use kyb.Auth.Decisions.{Entitled, Known, decide_required_iff, writes_need_a_writer}
use kyb.Auth.Cached.{
  Disk, contents, failed, book, after, initial, or_nobody, load, Loaded, book_current,
}

abbrev same : Text → Text
same t = t

abbrev token_of : Text → Text → TokenRec
token_of token label = record {
  id = codes "t_kyb_0a00";
  sha256 = token;
  label = label;
  created_at = codes "now";
  revoked_at = none;
}

abbrev first_token : Text
first_token = codes "kyb_0a0011"

abbrev second_token : Text
second_token = codes "kyb_0a0022"

abbrev ann : List TokenRec → Principal
ann tokens = record {
  id = codes "ann";
  name = codes "Ann";
  email = [];
  role = write;
  revoked = false;
  tokens = tokens;
}

abbrev ann_book : Book
ann_book = record { principals = ann (token_of first_token (codes "laptop") ∷ []) ∷ [] }

abbrev ann_twice : Book
ann_twice = record {
  principals =
      ann (token_of first_token (codes "laptop") ∷ token_of second_token (codes "desk") ∷ []) ∷ [];
}

add_ann :
    add same
      (codes "now")
      (some (codes "0a0011"))
      (codes "ann")
      (codes " Ann ")
      []
      write
      (codes "laptop")
      empty_book
    ≡ ok (first_token, ann_book)
unfolding add new_token token_rec valid_id trim ◌==◌
add_ann = refl

add_twice :
    add same (codes "now") (some (codes "0a0022")) (codes "ann") (codes "Ann") [] write [] ann_book
    ≡ err BookError.already_exists
unfolding add new_token token_rec valid_id trim ◌==◌
add_twice = refl

issue_ann :
    issue same (codes "now") (some (codes "0a0022")) (codes "ann") (codes "desk") ann_book
    ≡ ok (second_token, ann_twice)
unfolding issue new_token token_rec find_first change_first ◌==◌
issue_ann = refl

add-keeps_example :
    Distinct ann_book.principals
    × ((a : Actor) × (lookup same ann_book first_token ≡ some a)
        × (a.id ≡ codes "ann")
        × (a.name ≡ trim (codes " Ann "))
        × (a.role ≡ write))
    × ((t : Text) (a : Actor) → lookup same empty_book t ≡ some a → lookup same ann_book t ≡ some a)
add-keeps_example =
    add-keeps same (codes "now") (some (codes "0a0011")) (codes "ann") (codes " Ann ") [] write
      (codes "laptop") empty_book ann_book first_token add_ann tt refl

ann_fresh : holds second_token ann_book.principals ≡ false
unfolding ◌==◌
ann_fresh = refl

issue-keeps_example :
    Distinct ann_twice.principals
    × ((a : Actor) × (lookup same ann_twice second_token ≡ some a) × (a.id ≡ codes "ann"))
    × ((t : Text) (a : Actor) → lookup same ann_book t ≡ some a → lookup same ann_twice t ≡ some a)
issue-keeps_example =
    issue-keeps same (codes "now") (some (codes "0a0022")) (codes "ann") (codes "desk") ann_book
      ann_twice second_token issue_ann (tt, tt) ann_fresh

revoke_principal_example :
    let (done, book') = revoke_principal (codes "later") (codes "ann") ann_twice in
    (done ≡ any (λ p. p.id == codes "ann" && not p.revoked) ann_twice.principals)
    × Distinct book'.principals
    × ((t : Text) (a : Actor) → done ≡ true → lookup same book' t ≡ some a → a.id ≢ codes "ann")
    × ((t : Text) (a : Actor)
        → lookup same ann_twice t ≡ some a
        → a.id ≢ codes "ann"
        → lookup same book' t ≡ some a)
revoke_principal_example =
    revoke_principal_lem same (codes "later") (codes "ann") ann_twice (tt, tt)

abbrev ann_actor : Actor
ann_actor = record { id = codes "ann"; name = codes "Ann"; email = codes "ann@kyb"; role = write }

abbrev ann_session : Session
ann_session = record { actor = some ann_actor; role = write }

ann_writes :
    decide required none
      (lookup same ann_book)
      post
      (codes "/tasks")
      (some (codes "Bearer kyb_0a0011"))
    ≡ ok ann_session
unfolding decide need bearer_token session_of check_role lookup lookup_in strip_prefix trim ◌==◌
ann_writes = refl

ann_cannot_reindex :
    decide required none
      (lookup same ann_book)
      post
      (codes "/reindex")
      (some (codes "Bearer kyb_0a0011"))
    ≡ err (forbidden write admin)
unfolding decide need bearer_token session_of check_role lookup lookup_in strip_prefix trim ◌==◌
ann_cannot_reindex = refl

decide_required_example :
    (decide required none
        (lookup same ann_book)
        post
        (codes "/tasks")
        (some (codes "Bearer kyb_0a0011"))
      ≡ ok ann_session)
    ↔ Entitled
        (lookup same ann_book)
        (need post (codes "/tasks"))
        (codes "/tasks")
        (bearer_token (some (codes "Bearer kyb_0a0011")))
        ann_session
decide_required_example =
    decide_required_iff (lookup same ann_book) post (codes "/tasks")
      (some (codes "Bearer kyb_0a0011")) ann_session

reader_env : anon_of_env (codes " read ") ≡ ok (some read)
unfolding anon_of_env trim ◌==◌
reader_env = refl

ann_writes_beside_readers :
    decide required
      (some read)
      (lookup same ann_book)
      post
      (codes "/tasks")
      (some (codes "Bearer kyb_0a0011"))
    ≡ ok ann_session
unfolding decide need bearer_token session_of check_role lookup lookup_in strip_prefix trim ◌==◌
ann_writes_beside_readers = refl

tasks_need : need post (codes "/tasks") ≢ nothing
unfolding need ◌==◌
tasks_need e = ground arith

writes_need_a_writer_example :
    Known (lookup same ann_book) (bearer_token (some (codes "Bearer kyb_0a0011"))) write ann_session
    × ((codes "/tasks" ≡ codes "/api/audit") ⊎ (codes "/tasks" ≡ codes "/reindex")
        → ann_session.role ≡ admin)
writes_need_a_writer_example =
    writes_need_a_writer (codes " read ") (some read) (lookup same ann_book) post (codes "/tasks")
      (some (codes "Bearer kyb_0a0011")) ann_session reader_env ann_writes_beside_readers refl
      tasks_need

-- Any text but "v1" parses as the empty book here.
parse_v1 : Text → Option Book
parse_v1 t = if t == codes "v1" then some ann_book else none

abbrev first_disk : Disk
first_disk = record { modified = some 3; file = contents (codes "v1") }

abbrev changed_disk : Disk
changed_disk = record { modified = some 4; file = failed }

-- The mode of the file was changed and its modification time was not.
abbrev unreadable_disk : Disk
unreadable_disk = record { modified = some 3; file = failed }

unreadable_serves : (book parse_v1 (after parse_v1 (first_disk ∷ [])) unreadable_disk).0 ≡ ann_book
unfolding book after initial load parse_v1 trim ◌==◌
unreadable_serves = refl

book_current_example :
    let b = (book parse_v1 (after parse_v1 (first_disk ∷ [])) changed_disk).0 in
    ((b ≡ or_nobody (load parse_v1 changed_disk.file))
      ⊎ Loaded parse_v1 changed_disk.modified b (first_disk ∷ [])
      ⊎ ((changed_disk.modified ≡ none) × (b ≡ empty_book)))
    × (All (λ e. e.modified ≢ changed_disk.modified) (first_disk ∷ [])
        → changed_disk.modified ≢ none
        → b ≡ or_nobody (load parse_v1 changed_disk.file))
book_current_example = book_current parse_v1 (first_disk ∷ []) changed_disk
