-- ===== src/Manifest/Reach/Enough.antt =====
-- The walk ends: fuel for each node and one more is enough.
use cee.Prelude.{
  String, ◌≡◌, refl, Bool, true, Option, some, List, [], ◌∷◌, ℕ, zero, suc, ◌<◌, has, arith,
  Option-cases, inl, inr, eq_refl,
}
use cee.Maps.{Map, lookup, insert}
use cee.Manifest.FindCycle.{Edges, edges_of}
use cee.Manifest.FindCycle.Walks.{Edge}
use cee.Manifest.FindCycle.Marks.{unvisited, Grows, Grows-insert, unvisited-Grows, unvisited-insert}
use cee.Manifest.Reach.{walk, walk_all}

-- a walk that answers, with no node forgotten
abbrev pub Answers : Map Bool → Option (Map Bool) → Type 0
Answers before o = (after : Map Bool) × (o ≡ some after) × Grows before after

module _ (edges : Edges) (nodes : List String)
    (inside : (x y : String) → Edge edges x y → has y nodes ≡ true) where
  walk_all_lem :
      (fuel : ℕ) (again : String → Map Bool → Option (Map Bool))
      → ((id : String) (reached : Map Bool)
          → has id nodes ≡ true
          → unvisited reached nodes < fuel
          → Answers reached (again id reached))
      → (targets : List String) → ((x : String) → has x targets ≡ true → has x nodes ≡ true)
      → (reached : Map Bool) → unvisited reached nodes < fuel
      → Answers reached (walk_all again targets reached)
  unfolding walk_all has
  walk_all_lem fuel again well [] known reached enough = (reached, refl, λ x p. p)
  walk_all_lem fuel again well (next ∷ targets) known reached enough =
      let (middle, p, g) = well next reached (known next (ground (arith, eq_refl next))) enough in
      let (after, q, g') =
        walk_all_lem fuel again well targets (λ x h. known x (ground arith)) middle
          (omega (arith, enough, unvisited-Grows reached middle nodes g)) in
      (after, ground arith, (λ x h. g x (g' x h)))

  -- Enough fuel gives a result: `walk` answers whenever fewer nodes are unmarked than there is fuel.
  pub walk_lem :
      (fuel : ℕ) (id : String) (reached : Map Bool)
      → has id nodes ≡ true
      → unvisited reached nodes < fuel
      → Answers reached (walk edges fuel id reached)
  unfolding walk
  walk_lem zero id reached known enough = absurd (omega (arith, enough))
  walk_lem (suc fuel) id reached known enough = elim (Option-cases (lookup id reached)) [
    | inr (b, e) ↦ (reached, ground arith, (λ x p. p))
    | inl e ↦
        let (after, p, g) =
          walk_all_lem fuel (walk edges fuel) (walk_lem fuel) (edges_of edges id)
            (λ x h. inside id x h) (insert id true reached)
            (omega (arith, enough, unvisited-insert id true reached nodes known e)) in
        (after, ground arith, (λ x h. Grows-insert id true reached x (g x h)))
  ]
