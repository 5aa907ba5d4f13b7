-- ===== src/Discovery/Tests.antt =====
-- The theorem on the event loop at inputs.
use Prim.Native.String.{String}
use distributed_systems_trai.Discovery.{
  Member, Event, member_join, member_leave, shutdown, Handler, event_handler, without_local,
  event_handler-others,
}
use distributed_systems_trai.Base.{◌≡◌, List, [], ◌∷◌, ◌++◌, map, fault, ok, err}

-- A handler that keeps the names it is told of.
abbrev names : Handler
names = record {
  State = List String;
  join = λ s name addr. (name ∷ s, ok tt);
  leave = λ s name. (s, err fault);
}

abbrev member : String → Member
member name = record { name = name; rpc_addr = "127.0.0.1:8400" }

abbrev events : List Event
events = member_join (member "a" ∷ member "b" ∷ []) ∷ member_leave (member "b" ∷ []) ∷ []

event_handler-others_test :
    event_handler names "a" [] (map (without_local names "a") events ++ (shutdown ∷ []))
    ≡ event_handler names "a" [] (events ++ (shutdown ∷ events))
event_handler-others_test = event_handler-others names "a" [] events events
