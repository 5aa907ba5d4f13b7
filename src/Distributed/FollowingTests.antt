-- ===== src/Distributed/FollowingTests.antt =====
-- The theorem on the events of Serf and Raft's configuration at inputs.
use distributed_systems_trai.Base.{◌≡◌, refl, ap, inl, inr, List, [], ◌∷◌, ◌++◌, ok, ◌>>=◌}
use Prim.Native.String.{String}
use distributed_systems_trai.Discovery.{
  Member, Event, member_join, member_leave, other_event, shutdown, event_handler,
}
use distributed_systems_trai.Distributed.Membership.{filter_id}
use distributed_systems_trai.Distributed.Following.{
  of_raft, IsLeading, spec_events, spec_event, spec_members, with_member, without_member, is_there,
  event_handler-spec_events,
}
use distributed_systems_trai.Distributed.Tests.{cluster, node}

cluster-IsLeading : IsLeading cluster
cluster-IsLeading = record {
  adds = λ k id addr servers known fresh.
      ap (λ r. r >>= λ srvs. ok (srvs ++ (node id addr ∷ []))) known;
  removal = λ k id. refl;
}

abbrev member : String → String → Member
member name addr = record { name = name; rpc_addr = addr }

-- The node "a" sees itself and two others join, one of them twice, and one leave.
abbrev events : List Event
events =
    member_join (member "a" "x" ∷ member "b" "y" ∷ [])
    ∷ other_event
    ∷ member_join (member "c" "z" ∷ member "b" "y" ∷ [])
    ∷ member_leave (member "b" "y" ∷ [])
    ∷ shutdown
    ∷ []

event_handler-spec_events_example :
    cluster.configuration (event_handler (of_raft cluster) "a" (node "a" "x" ∷ []) events)
    ≡ ok (node "a" "x" ∷ node "c" "z" ∷ [])
unfolding spec_events spec_event spec_members with_member without_member is_there filter_id
event_handler-spec_events_example =
    event_handler-spec_events cluster cluster-IsLeading "a" events (node "a" "x" ∷ [])
      (node "a" "x" ∷ []) refl
      (
        (inl refl, (inr (inl ((refl, refl), tt)), tt)),
        (
          (
            inr (inl ((refl, refl), ((refl, refl), tt))),
            (inr (inr (node "a" "x" ∷ [], node "c" "z" ∷ [], ((refl, refl), tt), refl)), tt),
          ),
          tt,
        ),
      )
