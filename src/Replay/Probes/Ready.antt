-- ===== src/Replay/Probes/Ready.antt =====
-- The queues of a player, as the verdicts that are left to play.
use cee.Prelude.{
  String, ◌≡◌, refl, sym, ◌∙◌, subst, false, List, [], ◌∷◌, ◌++◌, ◌⊎◌, inl, inr, ◌==◌,
  if◌then◌else◌, arith, eq_iff, eq_refl, Bool-cases,
}
use mathlib.Core.List.{append_assoc, append-nil}
use cee.Maps.{lookup, insert, lookup-insert}
use cee.Replay.Records.{ProbeVerdict, Queues, queue, enqueue_all, advance}

-- the verdicts of one probe
abbrev pub verdicts_for : String → List ProbeVerdict → List ProbeVerdict
verdicts_for ref [] = []
verdicts_for ref (v ∷ vs) =
    let rest = verdicts_for ref vs in if v.probe_ref == ref then v ∷ rest else rest

queue-insert :
    (ref other : String) (q : List ProbeVerdict) (queues : Queues ProbeVerdict)
    → queue other (insert ref q queues) ≡ (if ref == other then q else queue other queues)
unfolding queue
queue-insert ref other q queues = ground (arith, lookup-insert ref other q queues)

enqueue_all_lem :
    (vs : List ProbeVerdict) (queues : Queues ProbeVerdict) (ref : String)
    → queue ref (enqueue_all vs queues) ≡ queue ref queues ++ verdicts_for ref vs
unfolding enqueue_all
enqueue_all_lem [] queues ref = sym (append-nil (queue ref queues))
enqueue_all_lem (v ∷ vs) queues ref =
    let more = queue v.probe_ref queues ++ v ∷ [] in
    enqueue_all_lem vs (insert v.probe_ref more queues) ref
    ∙ elim (Bool-cases (v.probe_ref == ref)) [
      | inl e ↦
          subst
            (λ r.
              queue r (insert v.probe_ref more queues) ++ verdicts_for r vs
              ≡ queue r queues ++ verdicts_for r (v ∷ vs))
            ((eq_iff v.probe_ref ref).0 e)
            (rw (queue-insert v.probe_ref v.probe_ref more queues, eq_refl v.probe_ref)
              (append_assoc (queue v.probe_ref queues) (v ∷ []) (verdicts_for v.probe_ref vs)))
      | inr e ↦ rw (queue-insert v.probe_ref ref more queues, e)
    ]

-- The queues hold the verdicts that are left, of every probe of which some are left.
abbrev pub Ready : Queues ProbeVerdict → List ProbeVerdict → Type 0
Ready queues vs =
    (ref : String) → (verdicts_for ref vs ≡ []) ⊎ (queue ref queues ≡ verdicts_for ref vs)

verdicts_for-same :
    (v : ProbeVerdict) (vs : List ProbeVerdict)
    → verdicts_for v.probe_ref (v ∷ vs) ≡ v ∷ verdicts_for v.probe_ref vs
verdicts_for-same v vs = rw (eq_refl v.probe_ref) refl

verdicts_for-other :
    (v : ProbeVerdict) (vs : List ProbeVerdict) (ref : String)
    → (v.probe_ref == ref) ≡ false
    → verdicts_for ref (v ∷ vs) ≡ verdicts_for ref vs
verdicts_for-other v vs ref e = rw (e) refl

pub Ready-head :
    (queues : Queues ProbeVerdict) (v : ProbeVerdict) (vs : List ProbeVerdict)
    → Ready queues (v ∷ vs)
    → queue v.probe_ref queues ≡ v ∷ verdicts_for v.probe_ref vs
Ready-head queues v vs h = elim (h v.probe_ref) [
  | inl e ↦ absurd (cc (e, verdicts_for-same v vs))
  | inr e ↦ e ∙ verdicts_for-same v vs
]

-- taking the first verdict leaves the queues ready for the rest
queue-advance :
    (queues : Queues ProbeVerdict) (ref other : String) (rest : List ProbeVerdict)
    → (ref == other) ≡ false
    → queue other (advance ref rest queues) ≡ queue other queues
queue-advance queues ref other [] e = refl
queue-advance queues ref other (v ∷ rest) e = rw (queue-insert ref other (v ∷ rest) queues, e)

queue-advance_same :
    (queues : Queues ProbeVerdict) (ref : String) (rest : List ProbeVerdict)
    → (rest ≡ []) ⊎ (queue ref (advance ref rest queues) ≡ rest)
queue-advance_same queues ref [] = inl refl
queue-advance_same queues ref (v ∷ rest) =
    inr (rw (queue-insert ref ref (v ∷ rest) queues, eq_refl ref) refl)

pub Ready-advance :
    (queues : Queues ProbeVerdict) (v : ProbeVerdict) (vs : List ProbeVerdict)
    → Ready queues (v ∷ vs)
    → Ready (advance v.probe_ref (verdicts_for v.probe_ref vs) queues) vs
Ready-advance queues v vs h ref = elim (Bool-cases (v.probe_ref == ref)) [
  | inl e ↦
      subst
        (λ r.
          (verdicts_for r vs ≡ [])
          ⊎ (queue r (advance v.probe_ref (verdicts_for v.probe_ref vs) queues)
              ≡ verdicts_for r vs))
        ((eq_iff v.probe_ref ref).0 e)
        (queue-advance_same queues v.probe_ref (verdicts_for v.probe_ref vs))
  | inr e ↦ elim (h ref) [
    | inl none_left ↦ inl (sym (verdicts_for-other v vs ref e) ∙ none_left)
    | inr same ↦ inr (
        queue-advance queues v.probe_ref ref (verdicts_for v.probe_ref vs) e
        ∙ same
        ∙ verdicts_for-other v vs ref e)
  ]
]

pub Ready-new_player : (vs : List ProbeVerdict) → Ready (enqueue_all vs []) vs
unfolding queue lookup
Ready-new_player vs ref = inr (enqueue_all_lem vs [] ref)
