-- ===== src/Intentrouter/Best.antt =====
-- The node that the lexical search of intentrouter/router.go answers with.
use cee.Prelude.{
  String, ◌≡◌, refl, Bool, true, false, Option, none, some, List, [], ◌∷◌, ◌⊎◌, inl, inr,
  Bool-cases,
}
use cee.Entities.{IntentNode}
use cee.Registry.{nodes_for}
use cee.Intentrouter.{
  Floats, Router, Closest, nothing_yet, offer, offer_examples, offer_nodes, result, closeness,
  match_lexical,
}

abbrev pub Among : {A : Type 0} → A → List A → Type 0
Among x [] = ⊥
Among x (y ∷ ys) = (x ≡ y) ⊎ Among x ys

-- What the search relies on: no number is greater than itself, and what is not greater than a number is
-- not greater than one that is greater than it. With float64 both hold of NaN too.
pub record IsOrder {F : Type 0} (gt : F → F → Bool) : Type 0 where
  pub irreflexive : (x : F) → gt x x ≡ false
  pub stays_below : (x y z : F) → gt x y ≡ false → gt z y ≡ true → gt x z ≡ false

module _ {F : Type 0} (floats : Floats F) (order : IsOrder floats.gt) (score : String → F) where
  -- no example scores more
  abbrev pub AllBelow : F → List String → Type 0
  AllBelow most [] = Unit
  AllBelow most (example ∷ examples) =
      (floats.gt (score example) most ≡ false) × AllBelow most examples

  abbrev pub NodesBelow : F → List IntentNode → Type 0
  NodesBelow most [] = Unit
  NodesBelow most (node ∷ nodes) = AllBelow most node.examples × NodesBelow most nodes

  -- a node of the list has an example that scores so
  abbrev pub Scored : List IntentNode → IntentNode → F → Type 0
  Scored all node most =
      Among node all × ((example : String) × Among example node.examples × (most ≡ score example))

  abbrev pub Holds : List IntentNode → Closest F → Type 0
  Holds all best =
      (best.node ≡ none)
      ⊎ ((node : IntentNode) × (best.node ≡ some node) × Scored all node best.score)

  -- the score of the closest node only grows
  abbrev Grown : F → F → Type 0
  Grown old new = (x : F) → floats.gt x old ≡ false → floats.gt x new ≡ false

  offer-Grown :
      (node : IntentNode) (s : F) (best : Closest F)
      → Grown best.score (offer floats node s best).score
        × (floats.gt s (offer floats node s best).score ≡ false)
  offer-Grown node s best = elim (Bool-cases (floats.gt s best.score)) [
    | inl e ↦ rw (e) ((λ x h. order.stays_below x best.score s h e), order.irreflexive s)
    | inr e ↦ rw (e) ((λ x h. h), e)
  ]

  offer-Holds :
      (all : List IntentNode) (node : IntentNode) (example : String) (best : Closest F)
      → Among node all
      → Among example node.examples
      → Holds all best
      → Holds all (offer floats node (score example) best)
  offer-Holds all node example best a b h =
      let shown : (x : String) × Among x node.examples × (score example ≡ score x) =
        (example, b, refl) in
      let scored : Scored all node (score example) = (a, shown) in
      elim (Bool-cases (floats.gt (score example) best.score)) [
        | inl e ↦ rw (e) (inr (node, refl, scored))
        | inr e ↦ rw (e) h
      ]

  AllBelow-Grown :
      (old new : F) (examples : List String)
      → Grown old new
      → AllBelow old examples
      → AllBelow new examples
  AllBelow-Grown old new [] g h = tt
  AllBelow-Grown old new (example ∷ examples) g (here, rest) =
      (g (score example) here, AllBelow-Grown old new examples g rest)

  offer_examples_lem :
      (all : List IntentNode) (node : IntentNode) (examples : List String) (best : Closest F)
      → Among node all
      → ((x : String) → Among x examples → Among x node.examples)
      → Holds all best
      → let after = offer_examples floats score node examples best in
        Holds all after × Grown best.score after.score × AllBelow after.score examples
  unfolding offer_examples
  offer_examples_lem all node [] best a inside h = (h, (λ x p. p), tt)
  offer_examples_lem all node (example ∷ examples) best a inside h =
      let (grown, below) = offer-Grown node (score example) best in
      let (held, more, rest) =
        offer_examples_lem all node examples (offer floats node (score example) best) a
          (λ x p. inside x (inr p))
          (offer-Holds all node example best a (inside example (inl refl)) h) in
      (held, (λ x p. more x (grown x p)), (more (score example) below, rest))

  offer_nodes_lem :
      (all nodes : List IntentNode) (best : Closest F)
      → ((n : IntentNode) → Among n nodes → Among n all)
      → Holds all best
      → let after = offer_nodes floats score nodes best in
        Holds all after × Grown best.score after.score × NodesBelow after.score nodes
  unfolding offer_nodes
  offer_nodes_lem all [] best inside h = (h, (λ x p. p), tt)
  offer_nodes_lem all (node ∷ nodes) best inside h =
      let first = offer_examples floats score node node.examples best in
      let (held, grown, below) =
        offer_examples_lem all node node.examples best (inside node (inl refl)) (λ x p. p) h in
      let (held', more, rest) = offer_nodes_lem all nodes first (λ n p. inside n (inr p)) held in
      let last = offer_nodes floats score nodes first in
      let all_below : NodesBelow last.score (node ∷ nodes) =
        (AllBelow-Grown first.score last.score node.examples more below, rest) in
      (held', (λ x p. more x (grown x p)), all_below)

  result_lem :
      (all : List IntentNode) (threshold : F) (best : Closest F)
      → Holds all best
      → (result floats threshold best.node best.score).matched ≡ true
      → (node : IntentNode) × ((result floats threshold best.node best.score).node_ref
          ≡ node.node_id)
        × ((result floats threshold best.node best.score).entry_workflow_ref
            ≡ node.entry_workflow_ref)
        × (floats.ge best.score threshold ≡ true)
        × Scored all node best.score
  unfolding result
  result_lem all threshold best (inl e) m = absurd (cc (e, m))
  result_lem all threshold best (inr (node, e, scored)) m =
      elim (Bool-cases (floats.ge best.score threshold)) [
        | inl g ↦ (node, rw (e, g) refl, rw (e, g) refl, g, scored)
        | inr g ↦ absurd (cc (e, g, m))
      ]

  result_confidence :
      (threshold : F) (node : Option IntentNode) (s : F)
      → (result floats threshold node s).confidence ≡ s
  unfolding result
  result_confidence threshold none s = refl
  result_confidence threshold (some node) s = elim (Bool-cases (floats.ge s threshold)) [
    | inl g ↦ rw (g) refl
    | inr g ↦ rw (g) refl
  ]

module _ {F W : Type 0} (floats : Floats F) (order : IsOrder floats.gt)
    (words : String → List String) (r : Router W F) where
  -- Where the lexical search matches, it answers with a node of the domain and its workflow. The
  -- confidence is the closeness of one of the examples of that node, it is at least the threshold, and no
  -- example of any node of the domain is closer.
  pub match_lexical_lem :
      (domain_id raw_text : String)
      → let found = match_lexical floats words r domain_id raw_text in
        let nodes = nodes_for domain_id r.nodes in
        let close = closeness floats words r raw_text in
        found.matched ≡ true
        → ((node : IntentNode) × (found.node_ref ≡ node.node_id)
            × (found.entry_workflow_ref ≡ node.entry_workflow_ref)
            × (floats.ge found.confidence r.threshold ≡ true)
            × Scored floats order close nodes node found.confidence)
          × NodesBelow floats order close found.confidence nodes
  unfolding match_lexical
  match_lexical_lem domain_id raw_text m =
      let nodes = nodes_for domain_id r.nodes in
      let close = closeness floats words r raw_text in
      let best = offer_nodes floats close nodes (nothing_yet floats) in
      let (held, _, below) =
        offer_nodes_lem floats order close nodes nodes (nothing_yet floats) (λ n p. p) (inl refl) in
      let (node, id, entry, above, scored) =
        result_lem floats order close nodes r.threshold best held m in
      let same = result_confidence floats order close r.threshold best.node best.score in
      rw (same) ((node, id, entry, above, scored), below)
