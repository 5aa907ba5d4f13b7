-- ===== src/Discovery.antt =====
-- internal/discovery/membership.go: what the event loop of a member makes of Serf's events. Serf and
-- the handler are parameters.
pub mod Startup
mod Tests
use text.Mathlib.Text.{◌==◌ as str_eq}
use Prim.Native.String.{String}
use distributed_systems_trai.Base.{
  ◌+◌, ◌-◌, ◌≡◌, refl, ap, ◌∙◌, Bool, List, [], ◌∷◌, ◌++◌, map, arith, ◌==◌, if◌then◌else◌, Result,
}
use mathlib.Core.List.{filter_map}

-- serf.Member: the name and the tag "rpc_addr", which is the empty text if it is missing.
pub record Member : Type 0 where
  pub name : String
  pub rpc_addr : String

pub data Event : Type 0 where
  member_join member_leave member_failed : List Member → Event
  other_event shutdown : Event

-- The interface Handler, on a state of its own.
pub record Handler : Type 1 where
  pub State : Type 0
  pub join : State → String → String → State × Result (Unit {0})
  pub leave : State → String → State × Result (Unit {0})

module _ (handler : Handler) (local_name : String) where
  open handler use {State, join, leave}

  unfoldable pub is_local : Member → Bool
  is_local member = str_eq member.name local_name

  -- handleJoin and handleLeave: an error is logged.
  unfoldable pub handle_join : State → Member → State
  handle_join s member = (join s member.name member.rpc_addr).0

  unfoldable pub handle_leave : State → Member → State
  handle_leave s member = (leave s member.name).0

  -- The loop over an event's members.
  unfoldable pub for_members : (State → Member → State) → State → List Member → State
  unfolding is_local
  for_members handle s [] = s
  for_members handle s (m ∷ ms) = for_members handle (if is_local m then s else handle s m) ms

  unfoldable pub handle_event : State → Event → State
  unfolding for_members handle_join handle_leave
  handle_event s (member_join ms) = for_members handle_join s ms
  handle_event s (member_leave ms) = for_members handle_leave s ms
  handle_event s (member_failed ms) = for_members handle_leave s ms
  handle_event s other = s

  -- eventHandler, on the events in the order in which `select` takes them.
  unfoldable pub event_handler : State → List Event → State
  unfolding handle_event
  event_handler s [] = s
  event_handler s (shutdown ∷ es) = s
  event_handler s (e ∷ es) = event_handler (handle_event s e) es

  -- The members of an event that are not the local node.
  abbrev pub others : List Member → List Member
  others [] = []
  others (m ∷ ms) = if is_local m then others ms else m ∷ others ms

  abbrev pub without_local : Event → Event
  without_local (member_join ms) = member_join (others ms)
  without_local (member_leave ms) = member_leave (others ms)
  without_local (member_failed ms) = member_failed (others ms)
  without_local e = e

  for_members-others :
      (handle : State → Member → State) (s : State) (ms : List Member)
      → for_members handle s (others ms) ≡ for_members handle s ms
  unfolding for_members
  for_members-others handle s [] = refl
  for_members-others handle s (m ∷ ms) =
      ground (arith, for_members-others handle s ms, for_members-others handle (handle s m) ms)

  handle_event-without_local :
      (s : State) (e : Event) → handle_event s (without_local e) ≡ handle_event s e
  unfolding handle_event
  handle_event-without_local s (member_join ms) = for_members-others handle_join s ms
  handle_event-without_local s (member_leave ms) = for_members-others handle_leave s ms
  handle_event-without_local s (member_failed ms) = for_members-others handle_leave s ms
  handle_event-without_local s other_event = refl
  handle_event-without_local s shutdown = refl

  -- The handler is never told of the local node, and of nothing after the shutdown: what it is left
  -- with is what it is left with when the local node is struck from every event and the events after
  -- a shutdown are dropped.
  pub event_handler-others :
      (s : State) (before after : List Event)
      → event_handler s (map without_local before ++ (shutdown ∷ []))
        ≡ event_handler s (before ++ (shutdown ∷ after))
  unfolding event_handler
  event_handler-others s [] after = refl
  event_handler-others s (shutdown ∷ es) after = refl
  event_handler-others s (member_join ms ∷ es) after =
      ap (λ t. event_handler t (map without_local es ++ (shutdown ∷ [])))
        (handle_event-without_local s (member_join ms))
      ∙ event_handler-others (handle_event s (member_join ms)) es after
  event_handler-others s (member_leave ms ∷ es) after =
      ap (λ t. event_handler t (map without_local es ++ (shutdown ∷ [])))
        (handle_event-without_local s (member_leave ms))
      ∙ event_handler-others (handle_event s (member_leave ms)) es after
  event_handler-others s (member_failed ms ∷ es) after =
      ap (λ t. event_handler t (map without_local es ++ (shutdown ∷ [])))
        (handle_event-without_local s (member_failed ms))
      ∙ event_handler-others (handle_event s (member_failed ms)) es after
  event_handler-others s (other_event ∷ es) after =
      event_handler-others (handle_event s other_event) es after
