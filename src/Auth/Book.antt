-- ===== src/Auth/Book.antt =====
-- auth.rs: the book of principals and their tokens. The digest of `hash_token` (crate sha2), the
-- random bytes of `new_token` (crate getrandom) and the time of day are arguments.
use kyb.Common.{
  ℕ, suc, ◌+◌, Bool, true, false, not, ◌&&◌, ◌||◌, Option, none, some, List, [], ◌∷◌, ◌++◌, map,
  Text, codes, ◌==◌, trim, take, is_empty, byte_len, leb, eqb, any, all, if◌then◌else◌, Result, ok,
  err, ◌>>=◌, ◌>>◌, ensure, ok_or,
}
use kyb.Auth.{Role, Actor}

pub record TokenRec : Type 0 where
  pub id : Text
  pub sha256 : Text
  pub label : Text
  pub created_at : Text
  pub revoked_at : Option Text

pub record Principal : Type 0 where
  pub id : Text
  pub name : Text
  pub email : Text
  pub role : Role
  pub revoked : Bool
  pub tokens : List TokenRec

pub record Book : Type 0 where
  pub principals : List Principal

abbrev pub empty_book : Book
empty_book = record { principals = [] }

pub data BookError : Type 0 where
  no_randomness bad_id no_name already_exists no_principal is_revoked : BookError

abbrev pub is_live : TokenRec → Bool
is_live t = elim t.revoked_at [ none ↦ true | some _ ↦ false ]

is_ascii_alphanumeric : ℕ → Bool
is_ascii_alphanumeric c =
    (leb b'0' c && leb c b'9') || (leb b'A' c && leb c b'Z') || (leb b'a' c && leb c b'z')

unfoldable pub valid_id : Text → Bool
unfolding is_ascii_alphanumeric byte_len
valid_id id =
    not (is_empty id)
    && leb (byte_len id) 64
    && all (λ c. is_ascii_alphanumeric c || eqb c b'-' || eqb c b'_' || eqb c b'.') id

-- What the book keeps of a token.
unfoldable pub token_rec : (Text → Text) → Text → Text → TokenRec
token_rec hash_token now token = record {
  id = codes "t_" ++ take 8 (hash_token token);
  sha256 = hash_token token;
  label = [];
  created_at = now;
  revoked_at = none;
}

-- A fresh token from its random part in hexadecimal; `none` is a failing source of randomness.
unfoldable pub new_token : (Text → Text) → Text → Option Text → Result BookError (Text × TokenRec)
unfolding token_rec
new_token hash_token now none = err no_randomness
new_token hash_token now (some hex) =
    ok (codes "kyb_" ++ hex, token_rec hash_token now (codes "kyb_" ++ hex))

abbrev pub principal_of : Text → Text → Text → Role → TokenRec → Principal
principal_of id name email role rec = record {
  id = id;
  name = trim name;
  email = trim email;
  role = role;
  revoked = false;
  tokens = rec ∷ [];
}

unfoldable pub add :
    (Text → Text)
    → Text
    → Option Text
    → Text
    → Text
    → Text
    → Role
    → Text
    → Book
    → Result BookError (Text × Book)
add hash_token now raw id name email role label book = do
  ensure (valid_id id) bad_id
  ensure (not (is_empty (trim name))) no_name
  ensure (not (any (λ p. p.id == id) book.principals)) already_exists
  (token, rec) ← new_token hash_token now raw
  let fresh : Principal = principal_of id name email role (record rec { label = label })
  ok (token, record book { principals = book.principals ++ fresh ∷ [] })

-- `iter_mut().find(test)`: the first principal that passes, and the list with it changed.
unfoldable pub change_first :
    (Principal → Bool) → (Principal → Principal) → List Principal → List Principal
change_first test change [] = []
change_first test change (p ∷ ps) =
    if test p then change p ∷ ps else p ∷ change_first test change ps

unfoldable pub find_first : (Principal → Bool) → List Principal → Option Principal
find_first test [] = none
find_first test (p ∷ ps) = if test p then some p else find_first test ps

abbrev pub push_token : TokenRec → Principal → Principal
push_token t p = record p { tokens = p.tokens ++ t ∷ [] }

unfoldable pub issue :
    (Text → Text) → Text → Option Text → Text → Text → Book → Result BookError (Text × Book)
issue hash_token now raw id label book = do
  p ← ok_or (find_first (λ p. p.id == id) book.principals) no_principal
  ensure (not p.revoked) is_revoked
  (token, rec) ← new_token hash_token now raw
  let pushed = push_token (record rec { label = label })
  ok (token, record book { principals = change_first (λ p. p.id == id) pushed book.principals })

abbrev revoke_rec : Text → TokenRec → TokenRec
revoke_rec now t = record t { revoked_at = some now }

unfoldable pub revoke_in : Text → Text → List TokenRec → ℕ × List TokenRec
revoke_in now token_id [] = (0, [])
revoke_in now token_id (t ∷ ts) =
    let (n, rest) = revoke_in now token_id ts in
    if t.id == token_id && is_live t then (suc n, revoke_rec now t ∷ rest) else (n, t ∷ rest)

unfoldable pub revoke_among : Text → Text → List Principal → ℕ × List Principal
revoke_among now token_id [] = (0, [])
revoke_among now token_id (p ∷ ps) =
    let (n, ts) = revoke_in now token_id p.tokens in
    let (m, rest) = revoke_among now token_id ps in (n + m, record p { tokens = ts } ∷ rest)

-- How many tokens stopped working, and the book without them.
unfoldable pub revoke_token : Text → Text → Book → ℕ × Book
revoke_token now token_id book =
    let (n, ps) = revoke_among now token_id book.principals in (n, record book { principals = ps })

abbrev pub revoke_live : Text → TokenRec → TokenRec
revoke_live at t = if is_live t then revoke_rec at t else t

unfoldable pub revoke_tokens : Text → Principal → Principal
revoke_tokens at p = record p { revoked = true; tokens = map (revoke_live at) p.tokens }

unfoldable pub revoke_principal : Text → Text → Book → Bool × Book
revoke_principal now id book =
    let test = λ (p : Principal). p.id == id && not p.revoked in
    elim (find_first test book.principals) [
      | none ↦ (false, book)
      | some _ ↦
          (true, record book { principals = change_first test (revoke_tokens now) book.principals })
    ]

abbrev pub has_token : Text → Principal → Bool
has_token h p = any (λ t. is_live t && t.sha256 == h) p.tokens

abbrev pub actor_of : Principal → Actor
actor_of p = record {
  id = p.id;
  name = p.name;
  email = if is_empty p.email then p.id ++ codes "@kyb" else p.email;
  role = p.role;
}

unfoldable pub lookup_in : Text → List Principal → Option Actor
lookup_in h [] = none
lookup_in h (p ∷ ps) = if not p.revoked && has_token h p then some (actor_of p) else lookup_in h ps

unfoldable pub lookup : (Text → Text) → Book → Text → Option Actor
lookup hash_token book token = lookup_in (hash_token token) book.principals
