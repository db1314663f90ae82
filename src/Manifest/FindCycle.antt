-- ===== src/Manifest/FindCycle.antt =====
-- `findCycle` of manifest/validate.go: a depth-first search for a cycle. The source recurses on the
-- graph; the model recurses on fuel, of which there is one unit for each node.
pub mod Walks
pub mod Marks
pub mod Visits
pub mod Complete
pub mod Ranking
use cee.Prelude.{
  String, ◌==◌, Option, none, some, List, [], ◌∷◌, ◌++◌, ℕ, zero, suc, length, if◌then◌else◌,
}
use cee.Maps.{Map, lookup, insert}

-- edges[node], the empty list for a node with no entry
abbrev pub Edges : Type 0
Edges = Map (List String)

abbrev listed : Option (List String) → List String
listed none = []
listed (some targets) = targets

unfoldable pub edges_of : Edges → String → List String
edges_of edges node = listed (lookup node edges)

-- `unvisited` is the mark of a node with no entry.
pub data Mark : Type 0 where
  on_stack : Mark
  done : Mark

pub data Search : Type 0 where
  cycle : List String → Search
  clear : Map Mark → Search
  exhausted : Search

-- the search goes on unless it has found a cycle
abbrev pub and_then : Search → (Map Mark → Search) → Search
and_then (cycle c) next = cycle c
and_then (clear state) next = next state
and_then exhausted next = exhausted

-- path[i:], for the first i at which the node stands
unfoldable pub path_from : String → List String → Option (List String)
path_from node [] = none
path_from node (n ∷ path) =
    let later = path_from node path in if n == node then some (n ∷ path) else later

abbrev pub close_path : String → Map Mark → (Map Mark → Search) → Option (List String) → Search
close_path next state go none = go state
close_path next state go (some loop) = cycle (loop ++ next ∷ [])

-- the switch on the mark of a target
abbrev pub meet :
    (String → List String → Map Mark → Search)
    → List String
    → String
    → Map Mark
    → (Map Mark → Search)
    → Option Mark
    → Search
meet visit path next state go none = and_then (visit next path state) go
meet visit path next state go (some done) = go state
meet visit path next state go (some on_stack) = close_path next state go (path_from next path)

-- the loop over the targets of the last node of the path
unfoldable pub follow :
    (String → List String → Map Mark → Search) → List String → List String → Map Mark → Search
unfolding path_from
follow visit path [] state = clear state
follow visit path (next ∷ rest) state =
    meet visit path next state (follow visit path rest) (lookup next state)

abbrev pub leave : String → Map Mark → Search
leave node state = clear (insert node done state)

module _ (edges : Edges) where
  unfoldable pub visit : ℕ → String → List String → Map Mark → Search
  unfolding follow edges_of
  visit zero node path state = exhausted
  visit (suc fuel) node path state =
      and_then
        (follow (visit fuel) (path ++ node ∷ []) (edges_of edges node) (insert node on_stack state))
        (leave node)

  abbrev pub visit_root : ℕ → String → Map Mark → (Map Mark → Search) → Option Mark → Search
  visit_root fuel node state go none = and_then (visit fuel node [] state) go
  visit_root fuel node state go (some mark) = go state

  -- the loop over the nodes
  unfoldable pub visit_all : ℕ → List String → Map Mark → Search
  visit_all fuel [] state = clear state
  visit_all fuel (node ∷ nodes) state =
      visit_root fuel node state (visit_all fuel nodes) (lookup node state)

abbrev pub found : Search → Option (List String)
found (cycle c) = some c
found (clear state) = none
found exhausted = none

unfoldable pub find_cycle : List String → Edges → Option (List String)
unfolding visit visit_all
find_cycle nodes edges = found (visit_all edges (length nodes) nodes [])
