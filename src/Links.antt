-- ===== src/Links.antt =====
-- links.rs: what an entry points at, and the index of links in both directions. `places` and
-- `impact` are left out.
pub mod Outgoing
pub mod Reversed
pub mod Rows
mod Tests
use kyb.Common.{
  ℕ, compare, Ordering, Bool, true, false, not, ◌&&◌, ◌||◌, Option, none, some, List, [], ◌∷◌, ◌++◌,
  map, Text, codes, ◌==◌, trim, trim_start, is_empty, strip_prefix, starts_with, contains, eqb,
  if◌then◌else◌, text_cmp,
}
use kyb.Common.Orders.{then_cmp}
use kyb.Common.Sorts.{sort_by}
use kyb.Diff.{lines}
use kyb.Deadline.{is_some}
use kyb.Entry.{Entry, is_valid_key, kind_knowledge, kind_incident, kind_task}

abbrev pub via_knowledge : Text
via_knowledge = codes "knowledge"

abbrev pub via_parent : Text
via_parent = codes "parent_task"

abbrev pub via_link : Text
via_link = codes "link"

-- The first group of each match of a pattern, in order: `captures_iter` of crate regex.
abbrev pub Captures : Type 0
Captures = Text → Text → List Text

abbrev pub wiki : Text
wiki = codes "\\[\\[([^\\[\\]]+)\\]\\]"

abbrev pub inline : Text
inline = codes "\\[[^\\[\\]]+\\]\\(([^()\\s]+)\\)"

-- A line without its inline code.
unfoldable pub outside_code : Bool → Text → Text
outside_code code [] = []
outside_code code (c ∷ s) =
    let inside = outside_code true s in
    let outside = outside_code false s in
    if eqb c 96 then (if code then outside else inside) else if code then inside else c ∷ outside

abbrev pub or_whole : Text → Option Text → Text
or_whole s none = s
or_whole s (some t) = t

unfoldable pub line_links : Captures → Text → List Text
line_links captures line =
    let text = outside_code false line in
    map trim (captures wiki text)
    ++ map (λ h. or_whole (trim h) (strip_prefix (codes "#/knowledge/") (trim h)))
        (captures inline text)

-- The links of the lines that are not fenced.
unfoldable pub unfenced_links : Captures → Bool → List Text → List Text
unfenced_links captures fenced [] = []
unfenced_links captures fenced (l ∷ ls) =
    let flipped = unfenced_links captures (not fenced) ls in
    let same = unfenced_links captures fenced ls in
    if starts_with (codes "```") (trim_start l)
    then flipped
    else if fenced
    then same
    else line_links captures l ++ same

-- `push` over all: valid keys, each once.
unfoldable pub push_keys : List Text → List Text → List Text
push_keys out [] = out
push_keys out (k ∷ ks) =
    let pushed = push_keys (out ++ k ∷ []) ks in
    let passed = push_keys out ks in
    if is_valid_key k && not (contains out k) then pushed else passed

unfoldable pub body_links : Captures → Text → List Text
body_links captures body = push_keys [] (unfenced_links captures false (lines body))

-- A target, and how the entry says so; in the other direction a source.
abbrev pub Edge : Type 0
Edge = Text × Text

unfoldable pub add_edges : List Text → List Edge → List Edge
add_edges seen [] = []
add_edges seen ((k, via) ∷ es) =
    let added = add_edges (k ∷ seen) es in
    let passed = add_edges seen es in
    if is_empty k || contains seen k then passed else (k, via) ∷ added

unfoldable pub outgoing : Captures → Entry → List Edge
outgoing captures e = add_edges (e.key ∷ []) (
    (e.parent_task, via_parent) ∷ map (λ k. (k, via_knowledge)) e.knowledge
    ++ map (λ k. (k, via_link)) (body_links captures e.body))

pub record Brief : Type 0 where
  pub title : Text
  pub kind : Text
  pub status : Text
  pub severity : Text
  pub priority : Text
  pub service : Text
  pub hosts : List Text
  pub updated_at : Text
  pub archived : Bool

abbrev pub brief_of : Entry → Bool → Brief
brief_of e archived = record {
  title = e.title;
  kind = e.kind;
  status = e.status;
  severity = e.severity;
  priority = e.priority;
  service = e.service;
  hosts = e.hosts;
  updated_at = e.updated_at;
  archived = archived;
}

abbrev pub ended_statuses : List Text
ended_statuses = codes "done" ∷ codes "closed" ∷ codes "dropped" ∷ codes "resolved" ∷ []

unfoldable pub live : Brief → Bool
live b =
    if b.archived
    then false
    else if b.kind == kind_incident
    then not (b.status == codes "resolved")
    else if b.kind == kind_task
    then not (contains ended_statuses b.status)
    else false

unfoldable pub rank : Brief → ℕ
rank b =
    if live b
    then (if b.kind == kind_incident then 0 else 1)
    else if b.kind == kind_knowledge
    then 2
    else 3

pub record LinkIndex : Type 0 where
  pub briefs : Text → Option Brief
  pub out : Text → List Edge
  pub inc : Text → List Edge

abbrev pub empty_index : LinkIndex
empty_index = record { briefs = λ k. none; out = λ k. []; inc = λ k. [] }

-- The edges of one entry, each pushed to its target.
unfoldable pub push_edges : Text → List Edge → (Text → List Edge) → Text → List Edge
push_edges from [] inc = inc
push_edges from ((to, via) ∷ es) inc =
    push_edges from es (λ t. if to == t then inc t ++ (from, via) ∷ [] else inc t)

-- The tree wins over an archived namesake.
unfoldable pub absorb : Captures → Bool → Entry → LinkIndex → LinkIndex
absorb captures archived e ix =
    let edges = outgoing captures e in
    if is_some (ix.briefs e.key) then ix else record {
      briefs = λ k. if e.key == k then some (brief_of e archived) else ix.briefs k;
      out = λ k. if e.key == k then edges else ix.out k;
      inc = push_edges e.key edges ix.inc;
    }

unfoldable pub absorb_all : Captures → Bool → List Entry → LinkIndex → LinkIndex
absorb_all captures archived [] ix = ix
absorb_all captures archived (e ∷ es) ix =
    absorb_all captures archived es (absorb captures archived e ix)

unfoldable pub build : Captures → List Entry → List Entry → LinkIndex
build captures head archived =
    absorb_all captures true archived (absorb_all captures false head empty_index)

-- The order of the rows of `rows`.
abbrev pub rank_of : Option Brief → ℕ
rank_of none = 4
rank_of (some b) = rank b

abbrev pub when_of : Option Brief → Text
when_of none = []
when_of (some b) = b.updated_at

unfoldable pub row_order : LinkIndex → Edge → Edge → Ordering
row_order ix a b =
    then_cmp
      (then_cmp (compare (rank_of (ix.briefs a.0)) (rank_of (ix.briefs b.0)))
        (text_cmp (when_of (ix.briefs b.0)) (when_of (ix.briefs a.0))))
      (text_cmp a.0 b.0)

unfoldable pub rows : LinkIndex → List Edge → List Edge
rows ix edges = sort_by (row_order ix) edges
