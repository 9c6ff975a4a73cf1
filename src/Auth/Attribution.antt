-- ===== src/Auth/Attribution.antt =====
-- auth.rs: who a commit names: its author, and the agent, session and workspace of its trailers.
use kyb.Common.{
  ℕ, Bool, not, ◌&&◌, ◌||◌, Option, none, some, List, [], ◌∷◌, ◌++◌, Text, codes, ◌==◌, eqb, leb,
  ltb, is_empty, trim, trim_end, take, retain, strip_prefix, if◌then◌else◌,
}
use kyb.Diff.{lines}

abbrev pub service_name : Text
service_name = codes "kyb"

abbrev pub service_email : Text
service_email = codes "kyb@local"

unfoldable pub shown_author : Text → Text → Text
shown_author name email =
    if is_empty name || (name == service_name && email == service_email)
    then []
    else if is_empty email
    then name
    else name ++ (codes " <" ++ (email ++ codes ">"))

pub record By : Type 0 where
  pub agent : Text
  pub session : Text
  pub workspace : Text
  pub via : Text

abbrev pub nobody : By
nobody = record { agent = []; session = []; workspace = []; via = [] }

unfoldable pub is_nobody : By → Bool
is_nobody b = is_empty b.agent && is_empty b.session && is_empty b.workspace

abbrev pub is_control : ℕ → Bool
is_control c = ltb c 32 || (leb 127 c && leb c 159)

unfoldable pub clean : Text → Text
clean v = trim (take 160 (retain (λ c. not (is_control c)) v))

abbrev pub new_by : Text → Text → Text → Text → By
new_by agent session workspace via = record {
  agent = clean agent;
  session = clean session;
  workspace = clean workspace;
  via = clean via;
}

abbrev pub trailer : Text → Text → Text
trailer name value = if is_empty value then [] else name ++ (codes ": " ++ (value ++ (10 ∷ [])))

unfoldable pub trailers : By → Text
trailers b =
    trailer (codes "Kyb-Agent") b.agent
    ++ (trailer (codes "Kyb-Session") b.session
        ++ (trailer (codes "Kyb-Workspace") b.workspace ++ trailer (codes "Kyb-Via") b.via))

abbrev pub or_here : Option Text → Option Text → Option Text
or_here (some t) here = some t
or_here none here = here

-- What stands behind the last "\n\n".
unfoldable pub behind_blank : Text → Option Text
behind_blank [] = none
behind_blank (c ∷ s) = or_here (behind_blank s) (strip_prefix (10 ∷ 10 ∷ []) (c ∷ s))

abbrev pub or_all : Text → Option Text → Text
or_all s none = s
or_all s (some tail) = tail

abbrev pub cons_name : ℕ → Option (Text × Text) → Option (Text × Text)
cons_name c none = none
cons_name c (some (name, value)) = some (c ∷ name, value)

-- `split_once(':')`.
unfoldable pub split_once : Text → Option (Text × Text)
split_once [] = none
split_once (c ∷ s) =
    let later = cons_name c (split_once s) in if eqb c 58 then some ([], s) else later

abbrev pub set_trailer : Text → Text → By → By
set_trailer name value b =
    if name == codes "Kyb-Agent"
    then record b { agent = value }
    else if name == codes "Kyb-Session"
    then record b { session = value }
    else if name == codes "Kyb-Workspace"
    then record b { workspace = value }
    else if name == codes "Kyb-Via"
    then record b { via = value }
    else b

abbrev pub read_trailer : Option (Text × Text) → By → By
read_trailer none b = b
read_trailer (some (name, value)) b = set_trailer (trim name) (trim value) b

unfoldable pub read_trailers : List Text → By → By
read_trailers [] b = b
read_trailers (l ∷ ls) b = read_trailers ls (read_trailer (split_once l) b)

unfoldable pub from_message : Text → Option By
from_message message =
    let text = trim_end message in
    let b = read_trailers (lines (or_all text (behind_blank text))) nobody in
    if is_nobody b then none else some b

abbrev pub message_with_trailers : Text → Option By → Text
message_with_trailers msg none = msg
message_with_trailers msg (some b) = if is_nobody b then msg else msg ++ (10 ∷ 10 ∷ trailers b)
