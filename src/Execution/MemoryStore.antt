-- ===== src/Execution/MemoryStore.antt =====
-- `MemoryStore` of execution/suspend.go: the suspended runs of one process, by pointer. `Delete` and
-- `Pending` are not part of the interface `Store`.
pub mod Laws
pub mod Promises
use cee.Prelude.{String, none, some, List, [], ◌∷◌, map, concat, quote}
use cee.Maps.{Map, lookup, insert, remove}
use cee.Execution.Errors.{Err, plain}
use cee.Execution.Exec.{Exec, ok, err}
use cee.Execution.Types.{State, Store}

abbrev pub MemoryStore : Type 0
MemoryStore = Map State

abbrev pub new_memory_store : MemoryStore
new_memory_store = []

abbrev pub no_such_pointer : String → Err
no_such_pointer pointer = plain (concat ("no suspended workflow for pointer " ∷ quote pointer ∷ []))

unfoldable pub save : State → Exec MemoryStore (Unit {0})
save s states = (ok tt, insert s.pointer s states)

unfoldable pub load : String → Exec MemoryStore State
load pointer states = elim (lookup pointer states) [
  | none ↦ (err (no_such_pointer pointer), states)
  | some state ↦ (ok state, states)
]

unfoldable pub delete : String → Exec MemoryStore (Unit {0})
delete pointer states = elim (lookup pointer states) [
  | none ↦ (err (no_such_pointer pointer), states)
  | some state ↦ (ok tt, remove pointer states)
]

unfoldable pub consume : String → Exec MemoryStore State
consume pointer states = elim (lookup pointer states) [
  | none ↦ (err (no_such_pointer pointer), states)
  | some state ↦ (ok state, remove pointer states)
]

unfoldable pub release : String → Exec MemoryStore (Unit {0})
release pointer states = (ok tt, states)

unfoldable pub pending : MemoryStore → List State
pending states = map (λ (entry : String × State). entry.1) states

-- The store as the engine sees it, in a world that holds it beside the rest.
unfoldable pub within : {R A : Type 0} → Exec MemoryStore A → Exec (MemoryStore × R) A
within m (states, rest) = let (r, states') = m states in (r, (states', rest))

unfoldable pub as_store : {R : Type 0} → Store (MemoryStore × R)
unfolding within
as_store = record {
  save = λ s. within (save s);
  load = λ pointer. within (load pointer);
  consume = λ pointer. within (consume pointer);
  release = λ pointer. within (release pointer);
}
