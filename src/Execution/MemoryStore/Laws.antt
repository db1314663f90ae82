-- ===== src/Execution/MemoryStore/Laws.antt =====
-- A saved run in memory: it is there until it is claimed, and it is claimed once.
use cee.Prelude.{String, ◌≡◌, none, arith, eq_refl, ◌==◌, if◌then◌else◌}
use cee.Maps.{lookup, lookup-insert, lookup-remove, insert}
use cee.Execution.Exec.{ok, err}
use cee.Execution.Types.{State}
use cee.Execution.MemoryStore.{remove, some, MemoryStore, save, load, consume, no_such_pointer}

-- A saved run can be loaded and claimed under its pointer. Once claimed it can be neither loaded nor
-- claimed again, and the runs under other pointers are as they were.
pub save-consume :
    (s : State) (states : MemoryStore) (other : String)
    → (load s.pointer (save s states).1 ≡ (ok s, (save s states).1))
      × ((consume s.pointer (save s states).1).0 ≡ ok s)
      × ((consume s.pointer (consume s.pointer (save s states).1).1).0
          ≡ err (no_such_pointer s.pointer))
      × ((load s.pointer (consume s.pointer (save s states).1).1).0
          ≡ err (no_such_pointer s.pointer))
      × (lookup other (consume s.pointer (save s states).1).1
          ≡ (if s.pointer == other then none else lookup other states))
unfolding save load consume
save-consume s states other =
    let saved = insert s.pointer s states in
    let found = lookup-insert s.pointer s.pointer s states in
    let gone = lookup-remove s.pointer s.pointer saved in
    (
      ground (arith, found, eq_refl s.pointer),
      ground (arith, found, eq_refl s.pointer),
      ground (arith, found, gone, eq_refl s.pointer),
      ground (arith, found, gone, eq_refl s.pointer),
      ground (
        arith,
        found,
        eq_refl s.pointer,
        lookup-remove s.pointer other saved,
        lookup-insert s.pointer other s states,
      ),
    )

pub load_found :
    (pointer : String) (states : MemoryStore) {s : State}
    → lookup pointer states ≡ some s
    → load pointer states ≡ (ok s, states)
unfolding load
load_found pointer states h = ground arith

pub consume_found :
    (pointer : String) (states : MemoryStore) {s : State}
    → lookup pointer states ≡ some s
    → consume pointer states ≡ (ok s, remove pointer states)
unfolding consume
consume_found pointer states h = ground arith
