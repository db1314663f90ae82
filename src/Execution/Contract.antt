-- ===== src/Execution/Contract.antt =====
-- What a `Store` of execution/suspend.go promises the engine: it holds states under their pointers, for
-- the pointers that it takes. Any call may fail.
pub mod Claims
use cee.Prelude.{String, ◌≡◌, ◌⊎◌, some}
use cee.Maps.{Map, lookup, insert, remove}
use cee.Execution.Types.{State, Store}
use cee.Execution.Exec.Hoare.{After}

module _ {S : Type 0} (Takes : String → Type 0) (Keeps : State → State → Type 0)
    (Holds : S → Map State → Type 0) where
  -- what is kept of the state that was saved is what the store's encoding makes of it
  abbrev pub Saved : State → Map State → Unit {0} → S → Type 0
  Saved state states u s =
      (kept : State) × Keeps state kept
      × (kept.pointer ≡ state.pointer)
      × Holds s (insert state.pointer kept states)

  abbrev pub Loaded : String → Map State → State → S → Type 0
  Loaded pointer states state s = (lookup pointer states ≡ some state) × Holds s states

  abbrev pub Consumed : String → Map State → State → S → Type 0
  Consumed pointer states state s =
      (lookup pointer states ≡ some state) × Holds s (remove pointer states)

  -- a claim that fails may have taken the state away
  abbrev pub MayBeTaken : String → Map State → S → Type 0
  MayBeTaken pointer states s = Holds s states ⊎ Holds s (remove pointer states)

  pub record IsStore (store : Store S) : Type 0 where
    pub saves :
        (state : State) (states : Map State) (s : S)
        → Takes state.pointer
        → Holds s states
        → After (Saved state states) (λ s'. Holds s' states) (store.save state) s
    pub loads :
        (pointer : String) (states : Map State) (s : S)
        → Takes pointer
        → Holds s states
        → After (Loaded pointer states) (λ s'. Holds s' states) (store.load pointer) s
    pub consumes :
        (pointer : String) (states : Map State) (s : S)
        → Takes pointer
        → Holds s states
        → After (Consumed pointer states) (MayBeTaken pointer states) (store.consume pointer) s
    pub releases :
        (pointer : String) (states : Map State) (s : S)
        → Takes pointer
        → Holds s states
        → After (λ u s'. Holds s' states) (λ s'. Holds s' states) (store.release pointer) s
