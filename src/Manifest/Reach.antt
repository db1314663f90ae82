-- ===== src/Manifest/Reach.antt =====
-- The function `walk` inside `validateStepGraph` of manifest/validate.go. The model recurses on fuel and
-- answers `none` if there is too little.
pub mod Enough
use cee.Prelude.{String, Bool, true, Option, none, some, List, [], ◌∷◌, ℕ, zero, suc}
use cee.Maps.{Map, lookup, insert}
use cee.Manifest.FindCycle.{Edges, edges_of}

-- the loop over the targets, with the call for each of them
unfoldable pub walk_all :
    (String → Map Bool → Option (Map Bool)) → List String → Map Bool → Option (Map Bool)
walk_all walk [] reached = some reached
walk_all walk (next ∷ rest) reached = elim (walk next reached) [
  | none ↦ none
  | some reached' ↦ walk_all walk rest reached'
]

module _ (edges : Edges) where
  unfoldable pub walk : ℕ → String → Map Bool → Option (Map Bool)
  unfolding walk_all
  walk zero id reached = none
  walk (suc fuel) id reached = elim (lookup id reached) [
    | some _ ↦ some reached
    | none ↦ walk_all (walk fuel) (edges_of edges id) (insert id true reached)
  ]
