-- ===== src/Httpapi/Pending.antt =====
-- The listing of what waits gives no resume pointer away.
use cee.Prelude.{◌⊎◌, inl, inr, String, ◌≡◌, refl, ap, some, List, [], ◌∷◌, map}
use cee.Execution.Exec.{Exec, Outcome, ok, err, panic, attempt, caught, ◌>>=◌, pure, continue}
use cee.Execution.Types.{Host, Machine, State, outside}
use cee.Httpapi.{
  identify_with, identify, Response, pending_known, handle_pending, get_pending, serve, Api,
  Decoders, pending_entry, listed, list_pending,
}

abbrev pub with_pointer : (State → String) → State → State
with_pointer pointer_of s = record s { pointer = pointer_of s }

-- the listing, with other pointers
abbrev pub relabelled : {W : Type 0} → (State → String) → Exec W (List State) → Exec W (List State)
relabelled pointer_of lister = lister >>= λ states. pure (map (with_pointer pointer_of) states)

map-relabelled :
    (pointer_of : State → String) (states : List State)
    → map pending_entry (map (with_pointer pointer_of) states) ≡ map pending_entry states
map-relabelled pointer_of [] = refl
map-relabelled pointer_of (s ∷ states) =
    ap (λ rest. pending_entry s ∷ rest) (map-relabelled pointer_of states)

module _ {W Req : Type 0} (host : Host W) (decoders : Decoders Req) (api : Api W Req) where
  -- the answer of a lister, listed
  listed_answer :
      (pointer_of : State → String) (r : Outcome (List State)) (w : W) (m : Machine W)
      → let renamed = continue r (λ states. pure (map (with_pointer pointer_of) states)) w in
        continue
          (caught renamed.0)
          (λ x. pure (listed host decoders api x))
          (record m { world = renamed.1 })
        ≡ continue (caught r) (λ x. pure (listed host decoders api x)) (record m { world = w })
  unfolding pure
  listed_answer pointer_of (ok states) w m = rw (map-relabelled pointer_of states) refl
  listed_answer pointer_of (err e) w m = refl
  listed_answer pointer_of (panic v) w m = refl

  list_pending-relabelled :
      (pointer_of : State → String) (lister : Exec W (List State)) (m : Machine W)
      → list_pending host decoders api (some (relabelled pointer_of lister)) m
        ≡ list_pending host decoders api (some lister) m
  unfolding list_pending ◌>>=◌ attempt outside
  list_pending-relabelled pointer_of lister m =
      listed_answer pointer_of (lister m.world).0 (lister m.world).1 m

module _ {W Req : Type 0} (host : Host W) (decoders : Decoders Req) (api : Api W Req) where
  -- What the listing of what waits answers, and what it does, does not depend on the resume pointers: a
  -- lister that gives the same runs other pointers is answered for in the same way.
  pub serve-relabelled :
      (pointer_of : State → String) (lister : Exec W (List State)) (req : Req) (m : Machine W)
      → serve host decoders
          (record api { pending = some (relabelled pointer_of lister) })
          get_pending
          req
          m
        ≡ serve host decoders (record api { pending = some lister }) get_pending req m
  unfolding serve handle_pending identify ◌>>=◌
  serve-relabelled pointer_of lister req m =
      known (identify_with host decoders api api.identify req m).0
        (identify_with host decoders api api.identify req m).1
    where
      hidden : Api W Req
      hidden = record api { pending = some (relabelled pointer_of lister) }

      shown : Api W Req
      shown = record api { pending = some lister }

      -- once the identification has answered
      known :
          (r : Outcome (String ⊎ Response)) (m' : Machine W)
          → continue r (pending_known host decoders hidden) m'
            ≡ continue r (pending_known host decoders shown) m'
      known (ok (inl identity)) m' = list_pending-relabelled host decoders api pointer_of lister m'
      known (ok (inr answer)) m' = refl
      known (err e) m' = refl
      known (panic v) m' = refl
