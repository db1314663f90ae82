-- ===== src/Intentrouter.antt =====
-- intentrouter/router.go: the intent that a text is closest to. float64 and the operations that the router
-- uses of it are the parameter `Floats`, and the splitting of a text into words, which is
-- `strings.ToLower` and a regular expression, is the parameter `words`. The nodes are those of Registry.
-- The cache of vectors is part of the state, and what the observer is told is a list, the latest first.
pub mod Best
use cee.Prelude.{
  ℕ, ◌+◌, ◌-◌, String, Bool, true, false, Option, none, some, List, [], ◌∷◌, ◌⊎◌, inl, inr, ◌||◌,
  if◌then◌else◌, has, length, eqb,
}
use cee.Maps.{Map, lookup, insert}
use cee.Entities.{IntentNode, MatchResult}
use cee.Execution.Errors.{Err}
use cee.Execution.Exec.{Exec, ok, pure, attempt, ◌>>=◌, ◌>>◌}
use cee.Registry.{Nodes, nodes_for}

pub record Floats (F : Type 0) : Type 0 where
  pub zero : F
  pub of_int : ℕ → F
  pub add : F → F → F
  pub mul : F → F → F
  pub div : F → F → F
  pub sqrt : F → F
  pub gt : F → F → Bool
  pub ge : F → F → Bool
  pub eq : F → F → Bool

abbrev pub Vectorizer : Type 0 → Type 0 → Type 0
Vectorizer W F = String → Exec W (List F)

-- The router as far as it is configured.
pub record Router (W F : Type 0) : Type 0 where
  pub threshold : F
  pub nodes : Nodes
  pub vectorizer : Option (Vectorizer W F)

-- The world, the cache, and what the observer was told.
pub record Routing (W F : Type 0) : Type 0 where
  pub world : W
  pub cache : Map (List F)
  pub told : List (String × Bool)

-- a set of words, as a list without repetitions
unfoldable pub token_set : List String → List String
token_set [] = []
token_set (tok ∷ toks) = let rest = token_set toks in if has tok rest then rest else tok ∷ rest

unfoldable pub count_common : List String → List String → ℕ
count_common [] b = 0
count_common (tok ∷ a) b = let rest = count_common a b in if has tok b then rest + 1 else rest

-- The closest node so far, and how close it is.
pub record Closest (F : Type 0) : Type 0 where
  pub node : Option IntentNode
  pub score : F

module _ {F : Type 0} (floats : Floats F) where
  unfoldable pub jaccard : List String → List String → F
  unfolding count_common
  jaccard a b =
      if eqb (length a) 0 || eqb (length b) 0
      then floats.zero
      else floats.div (floats.of_int (count_common a b))
          (floats.of_int (length a + length b - count_common a b))

  abbrev pub nothing_yet : Closest F
  nothing_yet = record { node = none; score = floats.zero }

  abbrev pub offer : IntentNode → F → Closest F → Closest F
  offer node score best =
      if floats.gt score best.score then record { node = some node; score = score } else best

  -- the loops over the examples and the nodes
  unfoldable pub offer_examples : (String → F) → IntentNode → List String → Closest F → Closest F
  offer_examples score node [] best = best
  offer_examples score node (example ∷ examples) best =
      offer_examples score node examples (offer node (score example) best)

  unfoldable pub offer_nodes : (String → F) → List IntentNode → Closest F → Closest F
  unfolding offer_examples
  offer_nodes score [] best = best
  offer_nodes score (node ∷ nodes) best =
      offer_nodes score nodes (offer_examples score node node.examples best)

  abbrev pub no_match : F → MatchResult F
  no_match score = record {
    matched = false;
    node_ref = "";
    confidence = score;
    entry_workflow_ref = "";
  }

  -- `Router.result`
  unfoldable pub result : F → Option IntentNode → F → MatchResult F
  result threshold none score = no_match score
  result threshold (some node) score =
      if floats.ge score threshold
      then record {
        matched = true;
        node_ref = node.node_id;
        confidence = score;
        entry_workflow_ref = node.entry_workflow_ref;
      }
      else no_match score

  -- the three sums of the loop in `cosine`
  unfoldable pub cosine_sums : List F → List F → F × F × F → F × F × F
  cosine_sums (x ∷ a) (y ∷ b) (dot, na, nb) =
      let sums : F × F × F = (
        floats.add dot (floats.mul x y),
        floats.add na (floats.mul x x),
        floats.add nb (floats.mul y y),
      ) in
      cosine_sums a b sums
  cosine_sums _ _ sums = sums

  abbrev pub cosine_of : F × F × F → F
  cosine_of (dot, na, nb) =
      if floats.eq na floats.zero || floats.eq nb floats.zero
      then floats.zero
      else floats.div dot (floats.mul (floats.sqrt na) (floats.sqrt nb))

  unfoldable pub cosine : List F → List F → F
  unfolding cosine_sums
  cosine a b =
      if eqb (length a) (length b)
      then if eqb (length a) 0
        then floats.zero
        else cosine_of (cosine_sums a b (floats.zero, floats.zero, floats.zero))
      else floats.zero

  module _ {W : Type 0} (words : String → List String) (r : Router W F) where
    unfoldable pub tokenize : String → List String
    unfolding token_set
    tokenize text = token_set (words text)

    abbrev pub closeness : String → String → F
    closeness raw_text example = jaccard (tokenize raw_text) (tokenize example)

    unfoldable pub match_lexical : String → String → MatchResult F
    unfolding offer_nodes result
    match_lexical domain_id raw_text =
        let best = offer_nodes (closeness raw_text) (nodes_for domain_id r.nodes) nothing_yet in
        result r.threshold best.node best.score

    abbrev pub keep : String → List F → Exec (Routing W F) (List F)
    keep text v s = (ok v, record s { cache = insert text v s.cache })

    abbrev pub vectorized : Vectorizer W F → String → Exec (Routing W F) (List F)
    vectorized vectorize text s = let (v, w) = vectorize text s.world in (v, record s { world = w })

    abbrev pub cached_or : Vectorizer W F → String → Option (List F) → Exec (Routing W F) (List F)
    cached_or vectorize text (some v) = pure v
    cached_or vectorize text none = vectorized vectorize text >>= keep text

    unfoldable pub vector_for : Vectorizer W F → String → Exec (Routing W F) (List F)
    unfolding ◌>>=◌
    vector_for vectorize text s = cached_or vectorize text (lookup text s.cache) s

    unfoldable pub offer_vectors :
        Vectorizer W F
        → List F
        → IntentNode
        → List String
        → Closest F
        → Exec (Routing W F) (Closest F)
    unfolding vector_for
    offer_vectors vectorize query node [] best = pure best
    offer_vectors vectorize query node (example ∷ examples) best =
        vector_for vectorize example >>= λ v.
        offer_vectors vectorize query node examples (offer node (cosine query v) best)

    unfoldable pub offer_all :
        Vectorizer W F → List F → List IntentNode → Closest F → Exec (Routing W F) (Closest F)
    unfolding offer_vectors
    offer_all vectorize query [] best = pure best
    offer_all vectorize query (node ∷ nodes) best =
        offer_vectors vectorize query node node.examples best >>= offer_all vectorize query nodes

    unfoldable pub match_semantic :
        Vectorizer W F → String → String → Exec (Routing W F) (MatchResult F)
    unfolding offer_all
    match_semantic vectorize domain_id raw_text = vector_for vectorize raw_text >>= λ query.
        offer_all vectorize query (nodes_for domain_id r.nodes) nothing_yet >>= λ best.
        pure (result r.threshold best.node best.score)

    abbrev pub or_lexical : String → String → MatchResult F ⊎ Err → MatchResult F
    or_lexical domain_id raw_text (inl found) = found
    or_lexical domain_id raw_text (inr failure) = match_lexical domain_id raw_text

    abbrev pub match_with :
        Option (Vectorizer W F) → String → String → Exec (Routing W F) (MatchResult F)
    match_with none domain_id raw_text = pure (match_lexical domain_id raw_text)
    match_with (some vectorize) domain_id raw_text =
        attempt (match_semantic vectorize domain_id raw_text) >>= λ found.
        pure (or_lexical domain_id raw_text found)

    abbrev pub tell : String → Bool → Exec (Routing W F) (Unit {0})
    tell domain_id was_matched s = (ok tt, record s { told = (domain_id, was_matched) ∷ s.told })

    -- `Match`
    unfoldable pub find_match : String → String → Exec (Routing W F) (MatchResult F)
    unfolding match_semantic match_lexical
    find_match domain_id raw_text = match_with r.vectorizer domain_id raw_text >>= λ found.
        tell domain_id found.matched >> pure found
