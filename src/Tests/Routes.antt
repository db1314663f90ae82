-- ===== src/Tests/Routes.antt =====
-- A router over whole numbers, for which a text is one word.
use cee.Prelude.{
  ℕ, ◌+◌, ◌*◌, ◌/◌, String, ◌≡◌, refl, true, none, List, [], ◌∷◌, ltb, leb, eqb, arith, has,
}
use cee.Maps.{lookup}
use cee.Entities.{IntentNode}
use cee.Registry.{nodes_for}
use cee.Intentrouter.{Floats, Router, jaccard, tokenize, closeness, match_lexical}
use cee.Intentrouter.Best.{IsOrder, Scored, NodesBelow, match_lexical_lem}

abbrev percent : Floats ℕ
percent = record {
  zero = 0;
  of_int = λ n. n;
  add = λ a b. a + b;
  mul = λ a b. a * b;
  div = λ a b. a * 100 / b;
  sqrt = λ a. a;
  gt = λ a b. ltb b a;
  ge = λ a b. leb b a;
  eq = eqb;
}

percent_order : IsOrder percent.gt
percent_order = record {
  irreflexive = λ x. ground arith;
  stays_below = λ x y z h g. ground (arith, h, g);
}

abbrev refund : IntentNode
refund = record {
  node_id = "shop.refund";
  domain_id = "shop";
  examples = "hello" ∷ "refund" ∷ [];
  entry_workflow_ref = "w";
  metadata = [];
}

abbrev router : Router (Unit {0}) ℕ
router = record { threshold = 30; nodes = ("shop", refund ∷ []) ∷ []; vectorizer = none }

abbrev words : String → List String
words text = text ∷ []

match_lexical_lem_example :
    let found = match_lexical percent words router "shop" "refund" in
    let nodes = nodes_for "shop" router.nodes in
    let close = closeness percent words router "refund" in
    ((node : IntentNode) × (found.node_ref ≡ node.node_id)
      × (found.entry_workflow_ref ≡ node.entry_workflow_ref)
      × (leb 30 found.confidence ≡ true)
      × Scored percent percent_order close nodes node found.confidence)
    × NodesBelow percent percent_order close found.confidence nodes
unfolding match_lexical nodes_for lookup jaccard tokenize has
match_lexical_lem_example =
    match_lexical_lem percent percent_order words router "shop" "refund" refl
