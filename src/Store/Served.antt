-- ===== src/Store/Served.antt =====
-- main.rs: `AppState::history_index`, the index that the server holds and extends as HEAD moves.
use kyb.Common.{
  Bool, true, false, ◌≡◌, refl, ap, inl, inr, Option, none, some, List, [], ◌∷◌, ◌++◌, Text, ◌==◌,
  eq_refl, eq_sound, if◌then◌else◌, Bool-cases, arith,
}
use kyb.Store.History.{CommitInfo, HistoryIndex, head_sha, in_history, history_index}
use kyb.Store.Extending.{first_apart, history_index_lem}

abbrev pub same_head : Option Text → Option Text → Bool
same_head none none = true
same_head (some a) (some b) = a == b
same_head _ _ = false

-- A hit on the held index asks only whether HEAD has moved.
unfoldable pub served_index : Option HistoryIndex → List CommitInfo → HistoryIndex
served_index none log = history_index none log
served_index (some ix) log =
    if same_head ix.head (head_sha log) then ix else history_index (some ix) log

-- Requests between which commits land: each batch has the commits since the request before, newest first.
unfoldable pub serve_all :
    Option HistoryIndex → List CommitInfo → List (List CommitInfo) → List HistoryIndex
serve_all held log [] = []
serve_all held log (new ∷ later) =
    let ix = served_index held (new ++ log) in ix ∷ serve_all (some ix) (new ++ log) later

unfoldable pub rebuilt : List CommitInfo → List (List CommitInfo) → List HistoryIndex
rebuilt log [] = []
rebuilt log (new ∷ later) = history_index none (new ++ log) ∷ rebuilt (new ++ log) later

-- No commit has the sha of the one that was HEAD before it.
abbrev pub IsFresh : List CommitInfo → List CommitInfo → Type 0
IsFresh new [] = Unit {0}
IsFresh new (c ∷ log) = in_history c.sha new ≡ false

abbrev pub AreFresh : List CommitInfo → List (List CommitInfo) → Type 0
AreFresh log [] = Unit {0}
AreFresh log (new ∷ later) = IsFresh new log × AreFresh (new ++ log) later

served_next :
    (new log : List CommitInfo)
    → IsFresh new log
    → served_index (some (history_index none log)) (new ++ log) ≡ history_index none (new ++ log)
unfolding served_index history_index
served_next [] [] f = refl
served_next (n ∷ new) [] f = refl
served_next [] (c ∷ log) f = rw (eq_refl c.sha) refl
served_next (n ∷ new) (c ∷ log) f = elim (Bool-cases (c.sha == n.sha)) [
  | inl e ↦
      let apart = first_apart n new c f in
      let same = eq_refl n.sha in
      let met : n.sha == c.sha ≡ true = rw (eq_sound c.sha n.sha e) same in
      ground (arith, apart, met)
  | inr e ↦ rw e (history_index_lem (n ∷ new) log c f)
]

serve_from :
    (log : List CommitInfo) (batches : List (List CommitInfo))
    → AreFresh log batches
    → serve_all (some (history_index none log)) log batches ≡ rebuilt log batches
unfolding serve_all rebuilt
serve_from log [] f = refl
serve_from log (new ∷ later) (f, fs) =
    let same = served_next new log f in
    rw same (ap (λ l. history_index none (new ++ log) ∷ l) (serve_from (new ++ log) later fs))

-- Whatever commits land between the requests, none with the sha of the HEAD before it, each request
-- for the history is answered with the index that is built from the whole history of the time.
pub serve_all_lem :
    (batches : List (List CommitInfo))
    → AreFresh [] batches
    → serve_all none [] batches ≡ rebuilt [] batches
unfolding serve_all rebuilt served_index
serve_all_lem [] f = refl
serve_all_lem (first ∷ later) (_, fs) =
    ap (λ l. history_index none (first ++ []) ∷ l) (serve_from (first ++ []) later fs)
