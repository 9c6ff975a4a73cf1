-- ===== src/Links/Tests.antt =====
-- Links at concrete entries. The pattern of wiki links finds one key here.
use kyb.Common.{
  List, none, some, not, ◌&&◌, ◌||◌, ◌≡◌, refl, [], ◌∷◌, codes, ◌==◌, is_empty, contains, byte_len,
  trim, trim_start, trim_end, is_whitespace, starts_with, strip_prefix, if◌then◌else◌,
}
use kyb.Diff.{lines, lines_from}
use kyb.Entry.{Entry, empty_entry, kind_task, is_valid_key, ends_with_dash}
use kyb.Links.{
  Captures, wiki, outgoing, add_edges, body_links, push_keys, unfenced_links, line_links,
  outside_code, build, via_parent, via_knowledge, via_link,
}
use kyb.Links.{Edge, LinkIndex}
use kyb.Links.Outgoing.{via_of, Once, outgoing_lem}
use kyb.Links.Reversed.{has_edge, build_lem}

one_wiki : Captures
one_wiki pattern text = if (pattern == wiki) && not (is_empty text) then codes "b" ∷ [] else []

abbrev child : Entry
child = record empty_entry {
  key = codes "task-a";
  kind = kind_task;
  parent_task = codes "task-r";
  knowledge = codes "k" ∷ codes "k" ∷ codes "task-a" ∷ [];
  body = codes "x";
}

outgoing-child :
    outgoing one_wiki child
    ≡ (codes "task-r", via_parent) ∷ (codes "k", via_knowledge) ∷ (codes "b", via_link) ∷ []
unfolding outgoing add_edges body_links push_keys unfenced_links line_links outside_code one_wiki
    ◌==◌ contains is_valid_key ends_with_dash byte_len trim trim_start trim_end is_whitespace
    starts_with strip_prefix lines lines_from
outgoing-child = refl

outgoing_example :
    (via_of (codes "k") (outgoing one_wiki child) ≡ (
      if is_empty (codes "k") || child.key == codes "k"
      then none
      else if child.parent_task == codes "k"
      then some via_parent
      else if contains child.knowledge (codes "k")
      then some via_knowledge
      else if contains (body_links one_wiki child.body) (codes "k")
      then some via_link
      else none))
    × Once (outgoing one_wiki child)
outgoing_example = outgoing_lem one_wiki child (codes "k")

build_example :
    has_edge (codes "task-a") via_knowledge ((build one_wiki (child ∷ []) []).inc (codes "k"))
    ≡ has_edge (codes "k") via_knowledge ((build one_wiki (child ∷ []) []).out (codes "task-a"))
build_example = build_lem one_wiki (child ∷ []) [] (codes "task-a") (codes "k") via_knowledge

abbrev index : LinkIndex
index = build one_wiki (child ∷ []) []

abbrev edges : List Edge
edges = (codes "missing", via_link) ∷ (codes "task-a", via_link) ∷ []
