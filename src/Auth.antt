-- ===== src/Auth.antt =====
-- auth.rs: roles and routes, the Authorization header, and the decision on one request.
-- The book of principals is `Auth.Book`; it is passed in as the caller's `self.book()` read it.
pub mod Book
pub mod Attribution
pub mod Decisions
pub mod Adding
pub mod Cached
pub mod Keeping
pub mod Revoking
mod Tests
use kyb.Common.{
  ℕ, Bool, true, false, ◌&&◌, ◌||◌, Option, none, some, List, [], ◌∷◌, Text, codes, ◌==◌, trim,
  is_empty, strip_prefix, if◌then◌else◌, ltb, Result, ok, err,
}

pub data Role : Type 0 where
  read write admin : Role

-- The derived order of the enum.
abbrev pub rank : Role → ℕ
rank read = 0
rank write = 1
rank admin = 2

unfoldable pub parse : Text → Option Role
parse s =
    if s == codes "read"
    then some read
    else if s == codes "write"
    then some write
    else if s == codes "admin"
    then some admin
    else none

unfoldable pub name : Role → Text
name read = codes "read"
name write = codes "write"
name admin = codes "admin"

pub data Mode : Type 0 where
  off compat required : Mode

pub record Actor : Type 0 where
  pub id : Text
  pub name : Text
  pub email : Text
  pub role : Role

pub record Session : Type 0 where
  pub actor : Option Actor
  pub role : Role

-- `http::Method`; a method that the code does not name carries its text.
pub data Method : Type 0 where
  get head options post delete : Method
  other : Text → Method

abbrev pub is_reading : Method → Bool
is_reading get = true
is_reading head = true
is_reading options = true
is_reading _ = false

pub data Need : Type 0 where
  nothing : Need
  at_least : Role → Need

unfoldable pub need : Method → Text → Need
need method path =
    if path == codes "/" || path == codes "/healthz" || path == codes "/whoami"
    then nothing
    else if path == codes "/api/audit"
    then at_least admin
    else if is_reading method
    then at_least read
    else if path == codes "/reindex"
    then at_least admin
    else at_least write

-- 401 and 403; the texts of the refusals are left out.
pub data Refusal : Type 0 where
  unknown : Refusal
  forbidden : Role → Role → Refusal

abbrev non_empty : Text → Option Text
non_empty t = if is_empty t then none else some t

abbrev or_else : Option Text → Option Text → Option Text
or_else none o = o
or_else (some t) o = some t

abbrev then_trim : Option Text → Option Text
then_trim none = none
then_trim (some t) = non_empty (trim t)

-- The token of an Authorization header, as `decide` cuts it out.
unfoldable pub bearer_token : Option Text → Option Text
bearer_token none = none
bearer_token (some h) =
    then_trim (or_else (strip_prefix (codes "Bearer ") h) (strip_prefix (codes "bearer ") h))

-- Who is asking: the token's actor, the page's visitor, or a caller without a token.
unfoldable pub session_of :
    Mode → Option Role → (Text → Option Actor) → Text → Need → Option Text → Result Refusal Session
session_of mode anon lookup path wanted (some t) = elim (lookup t) [
  | some actor ↦ ok (record { actor = some actor; role = actor.role })
  | none ↦ if path == codes "/" then ok (record { actor = none; role = read }) else err unknown
]
session_of compat anon lookup path wanted none = ok (record { actor = none; role = admin })
session_of mode (some role) lookup path wanted none = ok (record { actor = none; role = role })
session_of mode none lookup path nothing none = ok (record { actor = none; role = read })
session_of mode none lookup path (at_least r) none = err unknown

unfoldable pub check_role : Need → Session → Result Refusal Session
check_role nothing s = ok s
check_role (at_least r) s = if ltb (rank s.role) (rank r) then err (forbidden s.role r) else ok s

abbrev pub and_then :
    Result Refusal Session → (Session → Result Refusal Session) → Result Refusal Session
and_then (ok s) k = k s
and_then (err e) k = err e

-- `decide`; `lookup` is the lookup in the book that is in force.
unfoldable pub decide :
    Mode
    → Option Role
    → (Text → Option Actor)
    → Method
    → Text
    → Option Text
    → Result Refusal Session
decide off anon lookup method path bearer = ok (record { actor = none; role = admin })
decide mode anon lookup method path bearer =
    let wanted = need method path in
    and_then (session_of mode anon lookup path wanted (bearer_token bearer)) (check_role wanted)

-- `from_env`: `KYB_AUTH` and `KYB_ANON`, an unset variable being the empty text.
pub data EnvError : Type 0 where
  bad_mode bad_anon : EnvError

unfoldable pub mode_of_env : Text → Result EnvError Mode
mode_of_env raw =
    let t = trim raw in
    if is_empty t || t == codes "off"
    then ok off
    else if t == codes "compat"
    then ok compat
    else if t == codes "required"
    then ok required
    else err bad_mode

unfoldable pub anon_of_env : Text → Result EnvError (Option Role)
anon_of_env raw =
    let t = trim raw in
    if is_empty t then ok none else if t == codes "read" then ok (some read) else err bad_anon
