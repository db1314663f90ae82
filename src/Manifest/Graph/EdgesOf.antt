-- ===== src/Manifest/Graph/EdgesOf.antt =====
-- The edges of the graph of `on_success`: those of the steps, between ids of steps.
use cee.Prelude.{
  String, ◌≡◌, true, false, List, [], ◌∷◌, ◌++◌, ◌==◌, ◌&&◌, arith, eq_iff, eq_refl, if◌then◌else◌,
  has,
}
use cee.Maps.{Map, insert, lookup-insert}
use cee.Manifest.Specs.{StepSpec}
use cee.Manifest.FindCycle.{Edges, edges_of}
use cee.Manifest.FindCycle.Walks.{Edge}
use cee.Manifest.FindCycle.Marks.{has-append}
use cee.Manifest.Graph.{step_ids_of, add_edges, Graph, success_targets, add_step, add_steps}

edges_of-insert :
    (from x : String) (targets : List String) (edges : Edges)
    → edges_of (insert from targets edges) x ≡ (if from == x then targets else edges_of edges x)
unfolding edges_of
edges_of-insert from x targets edges = ground (arith, lookup-insert from x targets edges)

Edge-add_edges :
    (from x y : String) (targets : List String) (edges : Edges)
    → has y (edges_of (add_edges from targets edges) x)
      ≡ (if (from == x) && has y targets then true else has y (edges_of edges x))
unfolding add_edges has
Edge-add_edges from x y [] edges = ground arith
Edge-add_edges from x y (to ∷ targets) edges =
    let more = edges_of edges from ++ to ∷ [] in
    ground (
      arith,
      Edge-add_edges from x y targets (insert from more edges),
      edges_of-insert from x more edges,
      has-append y to (edges_of edges from),
      eq_iff from x,
    )

module _ (ids : List String) (fallbacks : Map String) where
  abbrev pub Targets : StepSpec → String → Type 0
  Targets s y = has y (success_targets ids fallbacks s) ≡ true

  success-add_step :
      (s : StepSpec) (g : Graph) (x y : String)
      → (s.step_id == "") ≡ false
      → has y (edges_of (add_step ids fallbacks s g).success x) ≡ (
          if (s.step_id == x) && has y (success_targets ids fallbacks s)
          then true
          else has y (edges_of g.success x))
  unfolding add_step
  success-add_step s g x y e =
      rw e (Edge-add_edges s.step_id x y (success_targets ids fallbacks s) g.success)

  -- every edge is between ids in `order` and `ids`
  abbrev pub Between : Graph → Type 0
  Between g = (x y : String) → Edge g.success x y → (has x g.order ≡ true) × (has y ids ≡ true)

  Targets-has : (s : StepSpec) (y : String) → Targets s y → has y ids ≡ true
  unfolding success_targets has
  Targets-has s y h = ground (arith, eq_iff s.on_success y)

  order-add_step :
      (s : StepSpec) (g : Graph) (z : String)
      → (s.step_id == "") ≡ false
      → has z (add_step ids fallbacks s g).order ≡ (if has z g.order then true else s.step_id == z)
  unfolding add_step
  order-add_step s g z e = rw e (has-append z s.step_id g.order)

  add_step-Between :
      (s : StepSpec) (g : Graph)
      → (s.step_id == "") ≡ false
      → Between g
      → Between (add_step ids fallbacks s g)
  add_step-Between s g named b x y e =
      ground
        (arith, success-add_step s g x y named, order-add_step s g x named, b x y, Targets-has s y)

  -- every step has an id
  abbrev pub Named : List StepSpec → Type 0
  Named [] = Unit
  Named (s ∷ steps) = ((s.step_id == "") ≡ false) × Named steps

  -- the targets of each step are edges
  abbrev pub StepEdges : Edges → List StepSpec → Type 0
  StepEdges edges [] = Unit
  StepEdges edges (s ∷ steps) =
      ((y : String) → Targets s y → Edge edges s.step_id y) × StepEdges edges steps

  pub add_steps-Between :
      (steps : List StepSpec) (g : Graph)
      → Named steps
      → Between g
      → Between (add_steps ids fallbacks steps g)
  unfolding add_steps
  add_steps-Between [] g n b = b
  add_steps-Between (s ∷ steps) g n b =
      add_steps-Between steps (add_step ids fallbacks s g) n.1 (add_step-Between s g n.0 b)

  pub order-add_steps :
      (steps : List StepSpec) (g : Graph) (z : String)
      → Named steps
      → has z (add_steps ids fallbacks steps g).order
        ≡ (if has z g.order then true else has z (step_ids_of steps))
  unfolding add_steps step_ids_of has
  order-add_steps [] g z n = ground arith
  order-add_steps (s ∷ steps) g z n = ground (
    arith,
    order-add_steps steps (add_step ids fallbacks s g) z n.1,
    order-add_step s g z n.0,
    n.0,
  )

  -- no edge is lost
  Edge-add_steps :
      (steps : List StepSpec) (g : Graph) (x y : String)
      → Named steps
      → Edge g.success x y
      → Edge (add_steps ids fallbacks steps g).success x y
  unfolding add_steps
  Edge-add_steps [] g x y n e = e
  Edge-add_steps (s ∷ steps) g x y n e =
      Edge-add_steps steps (add_step ids fallbacks s g) x y n.1
        (ground (arith, success-add_step s g x y n.0))

  pub StepEdges-add_steps :
      (steps : List StepSpec) (g : Graph)
      → Named steps
      → StepEdges (add_steps ids fallbacks steps g).success steps
  unfolding add_steps
  StepEdges-add_steps [] g n = tt
  StepEdges-add_steps (s ∷ steps) g n = (
    (λ y t.
        Edge-add_steps steps (add_step ids fallbacks s g) s.step_id y n.1
          (ground (arith, success-add_step s g s.step_id y n.0, eq_refl s.step_id))),
    StepEdges-add_steps steps (add_step ids fallbacks s g) n.1,
  )
