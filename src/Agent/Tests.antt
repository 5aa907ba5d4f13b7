-- ===== src/Agent/Tests.antt =====
-- The theorems on the agent at inputs.
use distributed_systems_trai.Base.{
  ℕ, ◌≡◌, refl, true, false, List, [], ◌∷◌, ◌++◌, closed, Result, ok, err,
}
use distributed_systems_trai.Agent.{
  Parts, Config, Agent, new, shutdown, shutdowns, run_all, setup_mux, setup_log, setup_server,
  setup_membership, rpc_address, shutdowns-shutdown, shutdown-new, shutdowns-not_left,
}

-- The world is the list of what was done, with numbers for the steps.
abbrev step : ℕ → List ℕ → List ℕ × Result (Unit {0})
step n w = (w ++ (n ∷ []), ok tt)

-- Parts that all work, but that leaving the cluster returns what is given.
abbrev parts : Result (Unit {0}) → Parts
parts left = record {
  World = List ℕ;
  listen = λ port. step 0;
  new_log = λ dir cfg. step 1;
  wait_for_leader = λ seconds. step 2;
  new_auth = λ model policy. step 3;
  start_server = λ tls w. w ++ (4 ∷ []);
  new_membership = λ cfg. step 5;
  start_mux = λ w. w ++ (6 ∷ []);
  leave = λ w. (w ++ (7 ∷ []), left);
  shutdown_server = step 8;
  close_mux = λ w. w ++ (9 ∷ []);
  close_log = step 10;
  split_host = ok;
  join_host_port = λ host port. host;
}

abbrev config : Config
config = record {
  server_tls = true;
  peer_tls = true;
  data_dir = "data";
  bind_address = "node";
  rpc_port = 8400;
  node_name = "n";
  start_join_addresses = [];
  acl_model_file = "model";
  acl_policy_file = "policy";
  bootstrap = true;
}

abbrev agent : Agent
agent = record { has_membership = true; shutdown = false }

shutdowns-shutdown_test :
    shutdowns (parts (ok tt)) 2 (shutdown (parts (ok tt)) (agent, [])).0
    ≡ ((shutdown (parts (ok tt)) (agent, [])).0, ok tt)
shutdowns-shutdown_test = shutdowns-shutdown (parts (ok tt)) 2 agent []

abbrev started : List ℕ
started = 0 ∷ 1 ∷ 2 ∷ 3 ∷ 4 ∷ 5 ∷ 6 ∷ []

shutdown-new_test :
    ((shutdown (parts (ok tt)) (agent, (new (parts (ok tt)) config []).0)).0.1
      ≡ started ++ (7 ∷ 8 ∷ 9 ∷ 10 ∷ []))
    × ((shutdown (parts (ok tt)) (agent, (new (parts (ok tt)) config []).0)).1 ≡ ok tt)
unfolding new run_all setup_mux setup_log setup_server setup_membership rpc_address
shutdown-new_test =
    shutdown-new (parts (ok tt)) config [] (started ++ (7 ∷ [])) (started ++ (7 ∷ 8 ∷ 9 ∷ 10 ∷ []))
      agent refl refl refl

shutdowns-not_left_example :
    ((shutdown (parts (err closed)) (agent, (new (parts (err closed)) config []).0)).1 ≡ err closed)
    × ((shutdowns
          (parts (err closed))
          3
          (shutdown (parts (err closed)) (agent, (new (parts (err closed)) config []).0)).0).0.1
        ≡ started ++ (7 ∷ []))
    × ((shutdowns
          (parts (err closed))
          3
          (shutdown (parts (err closed)) (agent, (new (parts (err closed)) config []).0)).0).1
        ≡ ok tt)
unfolding new run_all setup_mux setup_log setup_server setup_membership rpc_address
shutdowns-not_left_example =
    shutdowns-not_left (parts (err closed)) config [] (started ++ (7 ∷ [])) agent closed 3 refl refl
