-- ===== src/Agent.antt =====
-- internal/agent/agent.go: how a node is put together, and how it is shut down. What the parts do is a
-- parameter.
mod Tests
use Prim.Native.String.{String}
use distributed_systems_trai.Base.{
  ℕ, zero, suc, ◌≡◌, refl, ap, ◌∙◌, inl, inr, Bool, true, false, List, [], ◌∷◌, arith,
  if◌then◌else◌, Bool-cases, Error, fault, Result, ok, err, ◌>>=◌, Result-cases, and_then,
}

-- The fields of Config; of the TLS configurations, whether they are given.
pub record Config : Type 0 where
  pub server_tls : Bool
  pub peer_tls : Bool
  pub data_dir : String
  pub bind_address : String
  pub rpc_port : ℕ
  pub node_name : String
  pub start_join_addresses : List String
  pub acl_model_file : String
  pub acl_policy_file : String
  pub bootstrap : Bool

-- What setupLog and setupMembership give to distributed.NewLog and discovery.New.
pub record LogConfig : Type 0 where
  pub server_tls : Bool
  pub peer_tls : Bool
  pub local_id : String
  pub bootstrap : Bool

pub record MembershipConfig : Type 0 where
  pub node_name : String
  pub bind_address : String
  pub tags : List (String × String)
  pub start_join_addresses : List String

-- The parts of a node, as operations on everything that they touch. `start_server` is given whether the
-- server listens through TLS.
pub record Parts : Type 1 where
  pub World : Type 0
  pub listen : ℕ → World → World × Result (Unit {0})
  pub new_log : String → LogConfig → World → World × Result (Unit {0})
  pub wait_for_leader : ℕ → World → World × Result (Unit {0})
  pub new_auth : String → String → World → World × Result (Unit {0})
  pub start_server : Bool → World → World
  pub new_membership : MembershipConfig → World → World × Result (Unit {0})
  pub start_mux : World → World
  pub leave : World → World × Result (Unit {0})
  pub shutdown_server : World → World × Result (Unit {0})
  pub close_mux : World → World
  pub close_log : World → World × Result (Unit {0})
  pub split_host : String → Result String
  pub join_host_port : String → ℕ → String

-- The fields of Agent that Shutdown looks at; `has_membership` tells that the pointer is not nil.
pub record Agent : Type 0 where
  pub has_membership : Bool
  pub shutdown : Bool

module _ (parts : Parts) where
  open parts use {
    World, listen, new_log, wait_for_leader, new_auth, start_server, new_membership, start_mux,
    leave, shutdown_server, close_mux, close_log, split_host, join_host_port,
  }

  -- RPCAddress
  unfoldable pub rpc_address : Config → Result String
  rpc_address c = do host ← split_host c.bind_address; ok (join_host_port host c.rpc_port)

  -- setupMux
  unfoldable pub setup_mux : Config → World → World × Result (Unit {0})
  setup_mux c w = listen c.rpc_port w

  -- setupLog, which waits three seconds for a leader.
  unfoldable pub setup_log : Config → World → World × Result (Unit {0})
  setup_log c w =
      let cfg : LogConfig = record {
        server_tls = c.server_tls;
        peer_tls = c.peer_tls;
        local_id = c.node_name;
        bootstrap = c.bootstrap;
      } in
      and_then (new_log c.data_dir cfg w)
        λ _ w'. if c.bootstrap then wait_for_leader 3 w' else (w', ok tt)

  -- setupServer
  unfoldable pub setup_server : Config → World → World × Result (Unit {0})
  setup_server c w =
      and_then (new_auth c.acl_model_file c.acl_policy_file w)
        λ _ w'. (start_server c.server_tls w', ok tt)

  -- setupMembership
  unfoldable pub setup_membership : Config → World → World × Result (Unit {0})
  unfolding rpc_address
  setup_membership c w = elim (rpc_address c) [
    | err e ↦ (w, err e)
    | ok addr ↦
        new_membership
          (record {
            node_name = c.node_name;
            bind_address = c.bind_address;
            tags = ("rpc_addr", addr) ∷ [];
            start_join_addresses = c.start_join_addresses;
          })
          w
  ]

  -- A list of functions of which each runs if those before it did not fail.
  unfoldable pub run_all :
      List (World → World × Result (Unit {0})) → World → World × Result (Unit {0})
  run_all [] w = (w, ok tt)
  run_all (f ∷ fs) w = and_then (f w) λ _ w'. run_all fs w'

  -- New: an error ends it, and what was set up before stays.
  unfoldable pub new : Config → World → World × Result Agent
  unfolding run_all setup_mux setup_log setup_server setup_membership
  new c w =
      and_then (run_all (setup_mux c ∷ setup_log c ∷ setup_server c ∷ setup_membership c ∷ []) w)
        λ _ w'. (start_mux w', ok (record { has_membership = true; shutdown = false }))

  leave_membership : Agent → World → World × Result (Unit {0})
  leave_membership a w = if a.has_membership then leave w else (w, err fault)

  stop_server : World → World × Result (Unit {0})
  stop_server w = (close_mux (shutdown_server w).0, ok tt)

  -- Shutdown
  unfoldable pub shutdown : Agent × World → (Agent × World) × Result (Unit {0})
  unfolding run_all leave_membership stop_server
  shutdown (a, w) =
      let a' = record a { shutdown = true } in
      let (w', r) = run_all (leave_membership a ∷ stop_server ∷ close_log ∷ []) w in
      if a.shutdown then ((a, w), ok tt) else ((a', w'), r)

  -- serve, and the goroutine of the server, with what serving returned: an error shuts the node down.
  unfoldable pub serve : Result (Unit {0}) → Agent × World → (Agent × World) × Result (Unit {0})
  unfolding shutdown
  serve (ok u) s = (s, ok tt)
  serve (err e) s = ((shutdown s).0, err e)

  shutdown_again : (a : Agent) (w : World) → a.shutdown ≡ true → shutdown (a, w) ≡ ((a, w), ok tt)
  unfolding shutdown
  shutdown_again a w it = ground (arith, it)

  shutdown-sets : (a : Agent) (w : World) → (shutdown (a, w)).0.0.shutdown ≡ true
  unfolding shutdown
  shutdown-sets a w = elim (Bool-cases a.shutdown) [
    | inl it ↦ ground (arith, it)
    | inr it ↦ ground (arith, it)
  ]

  -- Calls of Shutdown, from wherever, in the order in which they take the mutex.
  unfoldable pub shutdowns : ℕ → Agent × World → (Agent × World) × Result (Unit {0})
  shutdowns zero s = (s, ok tt)
  shutdowns (suc n) s = shutdowns n (shutdown s).0

  -- However often Shutdown is called after a first call, whatever that returned, nothing more is
  -- done, and the calls succeed.
  pub shutdowns-shutdown :
      (n : ℕ) (a : Agent) (w : World)
      → shutdowns n (shutdown (a, w)).0 ≡ ((shutdown (a, w)).0, ok tt)
  unfolding shutdowns
  shutdowns-shutdown zero a w = refl
  shutdowns-shutdown (suc n) a w =
      let (a', w') = (shutdown (a, w)).0 in
      let stays = shutdown_again (shutdown (a, w)).0.0 (shutdown (a, w)).0.1 (shutdown-sets a w) in
      ap (λ s. shutdowns n s.0) stays ∙ shutdowns-shutdown n a w

  -- The multiplexer that Shutdown has closed makes serve call Shutdown again, which does nothing.
  serve-shutdown :
      (e : Error) (a : Agent) (w : World)
      → serve (err e) (shutdown (a, w)).0 ≡ ((shutdown (a, w)).0, err e)
  unfolding serve
  serve-shutdown e a w =
      let it = shutdown-sets a w in
      ap (λ s. (s.0, err e)) (shutdown_again (shutdown (a, w)).0.0 (shutdown (a, w)).0.1 it)

  -- New returns a node that has a membership and is not shut down.
  new-agent :
      (c : Config) (w : World) (a : Agent)
      → (new c w).1 ≡ ok a
      → (a.has_membership ≡ true) × (a.shutdown ≡ false)
  unfolding new
  new-agent c w a h =
      elim (Result-cases
        (run_all (setup_mux c ∷ setup_log c ∷ setup_server c ∷ setup_membership c ∷ []) w).1) [
          | inl (u, done) ↦ ground (arith, h, done)
          | inr (e, failed) ↦ ground (arith, h, failed)
        ]

  shutdown-left :
      (a : Agent) (w w₁ w₂ : World)
      → a.has_membership ≡ true
      → a.shutdown ≡ false
      → leave w ≡ (w₁, ok tt)
      → close_log (close_mux (shutdown_server w₁).0) ≡ (w₂, ok tt)
      → shutdown (a, w) ≡ ((record a { shutdown = true }, w₂), ok tt)
  unfolding shutdown
  shutdown-left a w w₁ w₂ present running left closes =
      ground (arith, present, running, left, closes)

  shutdown-not_left :
      (a : Agent) (w w₁ : World) (e : Error)
      → a.has_membership ≡ true
      → a.shutdown ≡ false
      → leave w ≡ (w₁, err e)
      → shutdown (a, w) ≡ ((record a { shutdown = true }, w₁), err e)
  unfolding shutdown
  shutdown-not_left a w w₁ e present running not_left = ground (arith, present, running, not_left)

  -- The first Shutdown of a node that New has set up leaves the cluster, then stops the server, then
  -- the multiplexer, and then closes the log, where leaving and closing succeed; it succeeds.
  pub shutdown-new :
      (c : Config) (w w₁ w₂ : World) (a : Agent)
      → (new c w).1 ≡ ok a
      → leave (new c w).0 ≡ (w₁, ok tt)
      → close_log (close_mux (shutdown_server w₁).0) ≡ (w₂, ok tt)
      → ((shutdown (a, (new c w).0)).0.1 ≡ w₂) × ((shutdown (a, (new c w).0)).1 ≡ ok tt)
  shutdown-new c w w₁ w₂ a started left closes =
      let (present, running) = new-agent c w a started in
      rw (shutdown-left a (new c w).0 w₁ w₂ present running left closes) (refl, refl)

  -- Where a node that New has set up cannot leave the cluster, its first Shutdown returns that error
  -- and touches nothing else: the server runs and the log is open, and however often Shutdown is
  -- called again, it succeeds without stopping or closing them.
  pub shutdowns-not_left :
      (c : Config) (w w₁ : World) (a : Agent) (e : Error) (n : ℕ)
      → (new c w).1 ≡ ok a
      → leave (new c w).0 ≡ (w₁, err e)
      → ((shutdown (a, (new c w).0)).1 ≡ err e)
        × ((shutdowns n (shutdown (a, (new c w).0)).0).0.1 ≡ w₁)
        × ((shutdowns n (shutdown (a, (new c w).0)).0).1 ≡ ok tt)
  shutdowns-not_left c w w₁ a e n started not_left =
      let (present, running) = new-agent c w a started in
      let first = shutdown-not_left a (new c w).0 w₁ e present running not_left in
      let later = shutdowns-shutdown n a (new c w).0 in
      (ap (λ x. x.1) first, ap (λ x. x.0.1) later ∙ ap (λ x. x.0.1) first, ap (λ x. x.1) later)
