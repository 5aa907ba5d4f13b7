-- ===== src/Distributed/Following.antt =====
-- internal/discovery/membership.go over internal/log/distributed/distributed.go, as
-- internal/agent/agent.go puts them together: how Raft's configuration on the leader follows the events
-- of Serf.
use text.Mathlib.Text.{◌==◌ as str_eq}
use text.Mathlib.TextEquality.{eq_iff}
use Prim.Native.String.{String}
use distributed_systems_trai.Base.{
  ◌≡◌, refl, ap, ◌∙◌, subst, ◌≢◌, ◌⊎◌, inl, inr, Bool, true, false, ◌&&◌, List, [], ◌∷◌, ◌++◌,
  arith, if◌then◌else◌, Bool-cases, ok,
}
use distributed_systems_trai.Discovery.{
  Member, Event, member_join, member_leave, member_failed, other_event, shutdown, Handler,
  handle_join, handle_leave, for_members, handle_event, event_handler,
}
use distributed_systems_trai.Distributed.Membership.{
  Server, filter_id, Raft, join, leave, IsNew, join-new, join-member,
}

-- The distributed log as the handler of the events.
abbrev pub of_raft : Raft → Handler
of_raft raft = record { State = raft.Cluster; join = join raft; leave = leave raft }

abbrev pub server_of : Member → Server
server_of m = record { id = m.name; address = m.rpc_addr }

-- The servers with a member, and without one.
unfoldable pub is_there : Member → List Server → Bool
is_there m [] = false
is_there m (srv ∷ srvs) =
    let rest = is_there m srvs in
    if str_eq srv.id m.name && str_eq srv.address m.rpc_addr then true else rest

unfoldable pub with_member : List Server → Member → List Server
unfolding is_there
with_member servers m = if is_there m servers then servers else servers ++ (server_of m ∷ [])

unfoldable pub without_member : List Server → Member → List Server
unfolding filter_id
without_member servers m = filter_id m.name servers

module _ (local_name : String) where
  abbrev is_own : Member → Bool
  is_own m = str_eq m.name local_name

  -- An event on the list of servers.
  unfoldable pub spec_members :
      (List Server → Member → List Server) → List Server → List Member → List Server
  spec_members f servers [] = servers
  spec_members f servers (m ∷ ms) = spec_members f (if is_own m then servers else f servers m) ms

  unfoldable pub spec_event : List Server → Event → List Server
  unfolding spec_members with_member without_member
  spec_event servers (member_join ms) = spec_members with_member servers ms
  spec_event servers (member_leave ms) = spec_members without_member servers ms
  spec_event servers (member_failed ms) = spec_members without_member servers ms
  spec_event servers other_event = servers
  spec_event servers shutdown = servers

  unfoldable pub spec_events : List Server → List Event → List Server
  unfolding spec_event
  spec_events servers [] = servers
  spec_events servers (shutdown ∷ es) = servers
  spec_events servers (e ∷ es) = spec_events (spec_event servers e) es

  -- The servers have neither the member's name nor its address; or they have both, in one server that is
  -- the first with either.
  abbrev pub Fits : List Server → Member → Type 0
  Fits servers m =
      IsNew m.name m.rpc_addr servers
      ⊎ ((before : List Server) × (after : List Server) × IsNew m.name m.rpc_addr before
          × (servers ≡ before ++ (server_of m ∷ after)))

  abbrev pub AllFit : List Server → List Member → Type 0
  AllFit servers [] = Unit {0}
  AllFit servers (m ∷ ms) =
      ((is_own m ≡ true) ⊎ Fits servers m)
      × AllFit (if is_own m then servers else with_member servers m) ms

  abbrev pub EventsFit : List Server → List Event → Type 0
  EventsFit servers [] = Unit {0}
  EventsFit servers (shutdown ∷ es) = Unit {0}
  EventsFit servers (member_join ms ∷ es) =
      AllFit servers ms × EventsFit (spec_event servers (member_join ms)) es
  EventsFit servers (e ∷ es) = EventsFit (spec_event servers e) es

is_there-IsNew :
    (m : Member) (servers : List Server)
    → IsNew m.name m.rpc_addr servers
    → is_there m servers ≡ false
unfolding is_there
is_there-IsNew m [] h = refl
is_there-IsNew m (srv ∷ srvs) h = ground (arith, h.0, is_there-IsNew m srvs h.1)

is_there-split :
    (m : Member) (before after : List Server)
    → IsNew m.name m.rpc_addr before
    → is_there m (before ++ (server_of m ∷ after)) ≡ true
unfolding is_there
is_there-split m [] after h = ground (arith, eq_iff m.name m.name, eq_iff m.rpc_addr m.rpc_addr)
is_there-split m (srv ∷ before) after h = ground (arith, h.0, is_there-split m before after h.1)

module _ (raft : Raft) where
  open raft use {Cluster, configuration, remove_server, add_voter, removes}

  -- A leader whose changes of the configuration succeed; AddVoter puts a server that is new behind
  -- the others.
  pub record IsLeading : Type 0 where
    pub adds :
        (k : Cluster) (id addr : String) (servers : List Server)
        → configuration k ≡ ok servers
        → IsNew id addr servers
        → configuration (add_voter k id addr).0
          ≡ ok (servers ++ (record { id = id; address = addr } ∷ []))
    pub removal : (k : Cluster) (id : String) → (remove_server k id).1 ≡ ok tt

  module _ (leading : IsLeading) (local_name : String) where
    open leading use {adds, removal}

    join-with_member :
        (k : Cluster) (servers : List Server) (m : Member)
        → configuration k ≡ ok servers
        → Fits local_name servers m
        → configuration (join raft k m.name m.rpc_addr).0 ≡ ok (with_member servers m)
    unfolding with_member
    join-with_member k servers m known (inl fresh) =
        rw (join-new raft k m.name m.rpc_addr servers fresh known, is_there-IsNew m servers fresh)
          (adds k m.name m.rpc_addr servers known fresh)
    join-with_member k servers m known (inr (before, after, fresh, split)) =
        rw
          (
            join-member raft k m.name m.rpc_addr before after fresh (known ∙ ap ok split),
            split,
            is_there-split m before after fresh,
          )
          (known ∙ ap ok split)

    for_members-joined :
        (k : Cluster) (servers : List Server) (ms : List Member)
        → configuration k ≡ ok servers
        → AllFit local_name servers ms
        → configuration
            (for_members (of_raft raft) local_name (handle_join (of_raft raft) local_name) k ms)
          ≡ ok (spec_members local_name with_member servers ms)
    unfolding for_members spec_members handle_join
    for_members-joined k servers [] known fits = known
    for_members-joined k servers (m ∷ ms) known (one, others) =
        let step =
          λ (b : Bool). AllFit local_name (if b then servers else with_member servers m) ms in
        elim (Bool-cases (str_eq m.name local_name)) [
          | inl own ↦ rw own (for_members-joined k servers ms known (subst step own others))
          | inr other ↦
              let fits : Fits local_name servers m = elim one [
                | inl own ↦ absurd (cc (own, other))
                | inr it ↦ it
              ] in
              rw other (
                for_members-joined (join raft k m.name m.rpc_addr).0 (with_member servers m) ms
                  (join-with_member k servers m known fits) (subst step other others))
        ]

    for_members-left :
        (k : Cluster) (servers : List Server) (ms : List Member)
        → configuration k ≡ ok servers
        → configuration
            (for_members (of_raft raft) local_name (handle_leave (of_raft raft) local_name) k ms)
          ≡ ok (spec_members local_name without_member servers ms)
    unfolding for_members spec_members handle_leave without_member leave
    for_members-left k servers [] known = known
    for_members-left k servers (m ∷ ms) known = elim (Bool-cases (str_eq m.name local_name)) [
      | inl own ↦ rw own (for_members-left k servers ms known)
      | inr other ↦ rw other (
          for_members-left (remove_server k m.name).0 (filter_id m.name servers) ms
            (removes k m.name servers known (removal k m.name)))
    ]

    handle_event-spec_event :
        (k : Cluster) (servers : List Server) (e : Event) (es : List Event)
        → configuration k ≡ ok servers
        → EventsFit local_name servers (e ∷ es)
        → e ≢ shutdown
        → (configuration (handle_event (of_raft raft) local_name k e)
            ≡ ok (spec_event local_name servers e))
          × EventsFit local_name (spec_event local_name servers e) es
    unfolding handle_event spec_event
    handle_event-spec_event k servers (member_join ms) es known (fits, others) running =
        (for_members-joined k servers ms known fits, others)
    handle_event-spec_event k servers (member_leave ms) es known others running =
        (for_members-left k servers ms known, others)
    handle_event-spec_event k servers (member_failed ms) es known others running =
        (for_members-left k servers ms known, others)
    handle_event-spec_event k servers other_event es known others running = (known, others)
    handle_event-spec_event k servers shutdown es known others running = absurd (running refl)

    -- On a leader whose changes of the configuration succeed, and that knows its servers, the event loop
    -- makes of the configuration what the events make of the list of servers, up to a shutdown: a
    -- member that joins is put behind the others unless it is there, and one that leaves or fails is
    -- taken out, but for the node itself. A member that joins must have a name and an address of which
    -- no server has one, or both must be those of the first server with either.
    pub event_handler-spec_events :
        (es : List Event) (k : Cluster) (servers : List Server)
        → configuration k ≡ ok servers
        → EventsFit local_name servers es
        → configuration (event_handler (of_raft raft) local_name k es)
          ≡ ok (spec_events local_name servers es)
    unfolding event_handler spec_events
    event_handler-spec_events [] k servers known fits = known
    event_handler-spec_events (shutdown ∷ es) k servers known fits = known
    event_handler-spec_events (member_join ms ∷ es) k servers known fits =
        let (known', fits') =
          handle_event-spec_event k servers (member_join ms) es known fits (λ h. cc h) in
        event_handler-spec_events es _ _ known' fits'
    event_handler-spec_events (member_leave ms ∷ es) k servers known fits =
        let (known', fits') =
          handle_event-spec_event k servers (member_leave ms) es known fits (λ h. cc h) in
        event_handler-spec_events es _ _ known' fits'
    event_handler-spec_events (member_failed ms ∷ es) k servers known fits =
        let (known', fits') =
          handle_event-spec_event k servers (member_failed ms) es known fits (λ h. cc h) in
        event_handler-spec_events es _ _ known' fits'
    event_handler-spec_events (other_event ∷ es) k servers known fits =
        let (known', fits') =
          handle_event-spec_event k servers other_event es known fits (λ h. cc h) in
        event_handler-spec_events es _ _ known' fits'
