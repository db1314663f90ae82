-- ===== src/Replay/Compare/Agrees.antt =====
-- When a comparison finds no difference.
use cee.Prelude.{
  Bool, eq_refl, ℕ, String, ◌≡◌, refl, sym, ap, ◌∙◌, true, false, Option, none, some, List, [], ◌∷◌,
  ◌++◌, inl, inr, ◌==◌, arith, eq_iff, Bool-cases, map, has, has-sort_strings, has-join,
}
use cee.Maps.{lookup, lookup-insert_all, or_else}
use cee.Value.{Value, beq, Context}
use cee.Entities.{WorkflowResult}
use cee.Execution.Errors.{Err}
use cee.Execution.Texts.{error_text}
use cee.Replay.Records.{Recorder, finish, Recording, has_pointer}
use cee.Replay.Compare.{
  suspended_difference, trace_difference, compare, beq, same_texts, Difference, join_trace, key_of,
  unseen_keys, output_fields, same_value, error_difference, value_difference, output_differences,
}

join-eq-nil : (xs ys : List Difference) → xs ++ ys ≡ [] → (xs ≡ []) × (ys ≡ [])
join-eq-nil [] ys h = (refl, h)
join-eq-nil (x ∷ xs) ys h = absurd (cc h)

lookup-unlisted :
    (key : String) (m : Context) → has key (map key_of m) ≡ false → lookup key m ≡ none
unfolding has lookup
lookup-unlisted key [] h = refl
lookup-unlisted key (entry ∷ m) h = ground (arith, h, lookup-unlisted key m, eq_iff entry.0 key)

lookup-unseen :
    (key : String) (seen : List String) (m : Context)
    → has key seen ≡ false
    → has key (unseen_keys seen m) ≡ false
    → lookup key m ≡ none
unfolding has lookup unseen_keys
lookup-unseen key seen [] e h = refl
lookup-unseen key seen (entry ∷ m) e h =
    ground (arith, h, e, lookup-unseen key seen m, eq_iff entry.0 key)

-- a key that is not among the fields is in none of the two outputs
lookup-output_fields :
    (key : String) (before after : Context)
    → has key (output_fields before after) ≡ false
    → (lookup key before ≡ none) × (lookup key after ≡ none)
unfolding output_fields
lookup-output_fields key before after h =
    let keys = map key_of before in
    let listed = sym (has-sort_strings key (keys ++ unseen_keys keys after)) ∙ h in
    let split = has-join key keys (unseen_keys keys after) in
    let first : has key keys ≡ false = ground (arith, listed, split) in
    let second : has key (unseen_keys keys after) ≡ false = ground (arith, listed, split) in
    (lookup-unlisted key before first, lookup-unseen key keys after first second)

or_else-none : (o : Option Value) → or_else o none ≡ o
or_else-none none = refl
or_else-none (some v) = refl

same_end : (a b : Bool) → beq a b ≡ true → a ≡ b
unfolding beq
same_end true b h = sym h
same_end false true h = absurd (cc h)
same_end false false h = refl

beq_refl : (a : Bool) → beq a a ≡ true
unfolding beq
beq_refl true = refl
beq_refl false = refl

module _ (marshal : Value → Option String) (show : Value → String) where
  abbrev pub AgreeAt : Option Value → Option Value → Type 0
  AgreeAt none none = Unit
  AgreeAt (some b) (some a) = same_value marshal show b a ≡ true
  AgreeAt (some b) none = ⊥
  AgreeAt none (some a) = ⊥

  abbrev pub SameEnd : Recording → Option Err → Type 0
  SameEnd rec none = rec.has_failed ≡ false
  SameEnd rec (some e) = (rec.has_failed ≡ true) × (rec.failure ≡ error_text show e)

  -- The recording and the result have the same trace as a text, the same kind of end, and the same value
  -- of every key of the output.
  abbrev pub Agrees : Recording → WorkflowResult → Option Err → Type 0
  Agrees rec result run_err =
      (join_trace rec.trace ≡ join_trace result.trace)
      × (rec.is_suspended ≡ has_pointer result)
      × SameEnd rec run_err
      × ((key : String) → AgreeAt (lookup key rec.output) (lookup key result.output))

  value_difference_lem :
      (key : String) (b a : Option Value)
      → (value_difference marshal show key b a ≡ [] → AgreeAt b a)
        × (AgreeAt b a → value_difference marshal show key b a ≡ [])
  value_difference_lem key none none = (λ h. tt, λ h. refl)
  value_difference_lem key (some b) none = (λ h. absurd (cc h), λ h. absurd h)
  value_difference_lem key none (some a) = (λ h. absurd (cc h), λ h. absurd h)
  value_difference_lem key (some b) (some a) = (λ h. ground (arith, h), λ h. rw (h) refl)

  error_difference_lem :
      (rec : Recording) (e : Option Err)
      → (error_difference marshal show rec e ≡ [] → SameEnd rec e)
        × (SameEnd rec e → error_difference marshal show rec e ≡ [])
  error_difference_lem rec none = (λ h. ground (arith, h), λ h. rw (h) refl)
  error_difference_lem rec (some e) = (
    λ h. ground (arith, h, eq_iff rec.failure (error_text show e)),
    λ h. ground (arith, h, eq_iff rec.failure (error_text show e)),
  )

  listed_agree :
      (before after : Context) (keys : List String) (key : String)
      → output_differences marshal show before after keys ≡ []
      → has key keys ≡ true
      → AgreeAt (lookup key before) (lookup key after)
  unfolding output_differences has
  listed_agree before after [] key h m = absurd (cc m)
  listed_agree before after (k ∷ keys) key h m =
      let parts = join-eq-nil _ _ h in
      elim (Bool-cases (k == key)) [
        | inl e ↦ (value_difference_lem key (lookup key before) (lookup key after)).0 (
            sym (
              ap (λ x. value_difference marshal show x (lookup x before) (lookup x after))
                ((eq_iff k key).0 e))
            ∙ parts.0)
        | inr e ↦ listed_agree before after keys key parts.1 (ground (arith, m, e))
      ]

  output_differences_nil :
      (before after : Context) (keys : List String)
      → ((key : String) → AgreeAt (lookup key before) (lookup key after))
      → output_differences marshal show before after keys ≡ []
  unfolding output_differences
  output_differences_nil before after [] h = refl
  output_differences_nil before after (k ∷ keys) h =
      rw ((value_difference_lem k (lookup k before) (lookup k after)).1 (h k))
        (output_differences_nil before after keys h)

  -- A comparison finds no difference exactly when the recording and the result agree on the trace, on the
  -- kind of end and the text of the error, and on the presence and the value of every key of the output.
  pub compare_lem :
      (rec : Recording) (result : WorkflowResult) (run_err : Option Err)
      → (compare marshal show rec result run_err ≡ [] → Agrees rec result run_err)
        × (Agrees rec result run_err → compare marshal show rec result run_err ≡ [])
  unfolding compare
  compare_lem rec result run_err =
      let keys = output_fields rec.output result.output in
      let outputs = output_differences marshal show rec.output result.output keys in
      let ends = error_difference_lem rec run_err in
      (
        λ h.
            let (t, rest) = join-eq-nil (trace_difference rec result) _ h in
            let (s, rest2) = join-eq-nil (suspended_difference rec result) _ rest in
            let (e, o) = join-eq-nil (error_difference marshal show rec run_err) outputs rest2 in
            (
              ground (arith, t, eq_iff (join_trace rec.trace) (join_trace result.trace)),
              same_end (rec.is_suspended) (has_pointer result) (ground (arith, s)),
              ends.0 e,
              λ key. elim (Bool-cases (has key keys)) [
                | inl m ↦ listed_agree rec.output result.output keys key o m
                | inr m ↦
                    let (b, a) = lookup-output_fields key rec.output result.output m in rw (b, a) tt
              ],
            ),
        λ h.
            rw
              (
                h.0,
                eq_refl (join_trace result.trace),
                h.1,
                beq_refl (has_pointer result),
                ends.1 h.2,
              )
              (output_differences_nil rec.output result.output keys h.3),
      )

  texts_refl : (v : Value) (text : Option String) → same_texts marshal show v v text text ≡ true
  texts_refl v none = eq_refl (show v)
  texts_refl v (some text) = eq_refl text

  pub agree_refl : (o : Option Value) → AgreeAt o o
  agree_refl none = tt
  agree_refl (some v) = texts_refl v (marshal v)

  own_end :
      {W : Type 0} (now : ℕ) (workflow_id : String) (input : Context) (result : WorkflowResult)
      (run_err : Option Err) (recorder : Recorder W)
      → SameEnd (finish show now workflow_id input result run_err recorder) run_err
  unfolding finish
  own_end now workflow_id input result none recorder = refl
  own_end now workflow_id input result (some e) recorder = (refl, refl)

  -- A run that is compared with its own recording shows no difference, however it ended.
  finish-compare :
      {W : Type 0} (now : ℕ) (workflow_id : String) (input : Context) (result : WorkflowResult)
      (run_err : Option Err) (recorder : Recorder W)
      → compare marshal show
          (finish show now workflow_id input result run_err recorder)
          result
          run_err
        ≡ []
  unfolding finish lookup
  finish-compare now workflow_id input result run_err recorder =
      let rec = finish show now workflow_id input result run_err recorder in
      (compare_lem rec result run_err).1 (
        refl,
        refl,
        own_end now workflow_id input result run_err recorder,
        λ key.
            rw (lookup-insert_all key [] result.output, or_else-none (lookup key result.output))
              (agree_refl (lookup key result.output)),
      )
