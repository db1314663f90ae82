-- ===== src/Execution/MemoryStore/Promises.antt =====
-- The store in memory of execution/suspend.go keeps what a store promises.
use cee.Prelude.{
  String, ◌≡◌, refl, sym, ap, subst, arith, ◌∙◌, Option, none, some, inl, if◌then◌else◌, ◌==◌,
}
use cee.Maps.{Map, lookup, insert, remove, lookup-insert, lookup-remove}
use cee.Execution.Exec.{Exec, Outcome, ok, err}
use cee.Execution.Exec.Hoare.{After, Ends}
use cee.Execution.Types.{State}
use cee.Execution.Contract.{IsStore, Loaded, Consumed, MayBeTaken}
use cee.Execution.MemoryStore.{
  MemoryStore, save, load, consume, release, within, as_store, no_such_pointer,
}
use cee.Execution.MemoryStore.Laws.{load_found, consume_found}

-- a state is kept as it is
abbrev pub Same : State → State → Type 0
Same state kept = kept ≡ state

abbrev pub Any : String → Type 0
Any pointer = Unit

Holds-insert :
    (k : String) (state : State) (m states : Map State)
    → ((q : String) → lookup q m ≡ lookup q states)
    → (q : String) → lookup q (insert k state m) ≡ lookup q (insert k state states)
Holds-insert k state m states h q =
    lookup-insert k q state m
    ∙ ap (λ o. if k == q then some state else o) (h q)
    ∙ sym (lookup-insert k q state states)

Holds-remove :
    (k : String) (m states : Map State)
    → ((q : String) → lookup q m ≡ lookup q states)
    → (q : String) → lookup q (remove k m) ≡ lookup q (remove k states)
Holds-remove k m states h q =
    lookup-remove k q m
    ∙ ap (λ o. if k == q then none else o) (h q)
    ∙ sym (lookup-remove k q states)

missing :
    (m : MemoryStore) (pointer : String)
    → lookup pointer m ≡ none
    → (load pointer m ≡ (err (no_such_pointer pointer), m))
      × (consume pointer m ≡ (err (no_such_pointer pointer), m))
unfolding load consume
missing m pointer e = (ground arith, ground arith)

module _ {R : Type 0} where
  -- the same states under every pointer
  abbrev pub Holds : MemoryStore × R → Map State → Type 0
  Holds s states = (q : String) → lookup q s.0 ≡ lookup q states

  -- a call in the world is known by what it does to the store
  within-After :
      {A : Type 0} (K : A → MemoryStore × R → Type 0) (E : MemoryStore × R → Type 0)
      (c : Exec MemoryStore A) (m m' : MemoryStore) (rest : R) (r : Outcome A)
      → c m ≡ (r, m')
      → Ends K E r (m', rest)
      → After K E (within c) (m, rest)
  unfolding within
  within-After {A = A} K E c m m' rest r e h =
      subst (λ (x : Outcome A × MemoryStore). Ends K E x.0 (x.1, rest)) (sym e) h

  loaded :
      (pointer : String) (states : Map State) (s : MemoryStore × R) (o : Option State)
      → lookup pointer s.0 ≡ o
      → Holds s states
      → After
          (Loaded Any Same Holds pointer states)
          (λ s'. Holds s' states)
          (within (load pointer))
          s
  loaded pointer states (m, rest) none e h =
      within-After _ _ (load pointer) m m rest (err (no_such_pointer pointer))
        (missing m pointer e).0 h
  loaded pointer states (m, rest) (some state) e h =
      within-After _ _ (load pointer) m m rest (ok state) (load_found pointer m e)
        (sym (h pointer) ∙ e, h)

  consumed :
      (pointer : String) (states : Map State) (s : MemoryStore × R) (o : Option State)
      → lookup pointer s.0 ≡ o
      → Holds s states
      → After
          (Consumed Any Same Holds pointer states)
          (MayBeTaken Any Same Holds pointer states)
          (within (consume pointer))
          s
  consumed pointer states (m, rest) none e h =
      within-After _ _ (consume pointer) m m rest (err (no_such_pointer pointer))
        (missing m pointer e).1 (inl h)
  consumed pointer states (m, rest) (some state) e h =
      within-After _ _ (consume pointer) m (remove pointer m) rest (ok state)
        (consume_found pointer m e) (sym (h pointer) ∙ e, Holds-remove pointer m states h)

  pub as_store-IsStore : IsStore Any Same Holds as_store
  unfolding as_store within save release
  as_store-IsStore = record {
    saves =
        λ state states s p h. (state, refl, refl, Holds-insert state.pointer state s.0 states h);
    loads = λ pointer states s p h. loaded pointer states s (lookup pointer s.0) refl h;
    consumes = λ pointer states s p h. consumed pointer states s (lookup pointer s.0) refl h;
    releases = λ pointer states s p h. h;
  }
