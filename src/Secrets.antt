-- ===== src/Secrets.antt =====
-- model.rs: `find_secret`. Searching with a regular expression (crate regex) is an argument.
use kyb.Common.{Option, none, some, List, [], ◌∷◌, Text, codes, take}

abbrev pub secret_res : List Text
secret_res =
    codes "ghp_[A-Za-z0-9]{20,}"
    ∷ codes "github_pat_[A-Za-z0-9_]{20,}"
    ∷ codes "xox[baprs]-[A-Za-z0-9-]{10,}"
    ∷ codes "\\bsk-[A-Za-z0-9_-]{24,}"
    ∷ codes "AKIA[0-9A-Z]{16}"
    ∷ codes "-----BEGIN [A-Z ]*PRIVATE KEY"
    ∷ codes "(?i)(password|passwd|пароль)\\s*[:=]\\s*[^\\s\"']{6,}"
    ∷ []

-- `find_map` over the patterns; the first match is cut to 20 characters.
unfoldable pub find_in : (Text → Text → Option Text) → List Text → Text → Option Text
find_in regex_find [] text = none
find_in regex_find (re ∷ res) text = elim (regex_find re text) [
  | none ↦ find_in regex_find res text
  | some m ↦ some (take 20 m)
]

unfoldable pub find_secret : (Text → Text → Option Text) → Text → Option Text
find_secret regex_find text = find_in regex_find secret_res text
