-- ===== src/Discovery/Startup.antt =====
-- New, setupSerf and Leave of internal/discovery/membership.go, over Serf as a
-- parameter.
use Prim.Native.String.{String}
use distributed_systems_trai.Base.{ℕ, Option, none, some, List, Result, ok, and_then}

pub record Config : Type 0 where
  pub node_name : String
  pub bind_address : String
  pub tags : List (String × String)
  pub start_join_addresses : Option (List String)

-- What serf.Create is given: the address to bind, and the node's name and tags.
pub record SerfConfig : Type 0 where
  pub bind_addr : String
  pub bind_port : ℕ
  pub node_name : String
  pub tags : List (String × String)

-- Serf, on everything that it touches; Join contacts the addresses and tells how many of them.
pub record Serf : Type 1 where
  pub World : Type 0
  pub resolve : World → String → World × Result (String × ℕ)
  pub create : World → SerfConfig → World × Result (Unit {0})
  pub start_event_handler : World → World
  pub join : World → List String → World × Result ℕ
  pub leave : World → World × Result (Unit {0})

module _ (serf : Serf) where
  open serf use {World, resolve, create, start_event_handler, join, leave}

  join_start : Option (List String) → World → World × Result (Unit {0})
  join_start none w = (w, ok tt)
  join_start (some addrs) w = and_then (join w addrs) λ joined w'. (w', ok tt)

  -- setupSerf: the event handler is started before the first addresses are joined.
  unfoldable pub setup_serf : Config → World → World × Result (Unit {0})
  unfolding join_start
  setup_serf c w = and_then (resolve w c.bind_address) λ addr w₁.
      and_then
        (create w₁ (record {
          bind_addr = addr.0;
          bind_port = addr.1;
          node_name = c.node_name;
          tags = c.tags;
        }))
        λ _ w₂. join_start c.start_join_addresses (start_event_handler w₂)

  -- New returns the membership beside the error.
  unfoldable pub new : Config → World → World × Result (Unit {0})
  new c w = setup_serf c w

  unfoldable pub leave_cluster : World → World × Result (Unit {0})
  leave_cluster w = leave w
