-- ===== src/Distributed/Membership.antt =====
-- Join and Leave of internal/log/distributed/distributed.go, over a Raft node as a parameter.
use text.Mathlib.Text.{◌==◌ as str_eq}
use text.Mathlib.TextEquality.{eq_iff}
use Prim.Native.String.{String}
use distributed_systems_trai.Base.{
  ◌≡◌, refl, true, false, ◌&&◌, ◌||◌, List, [], ◌∷◌, ◌++◌, arith, if◌then◌else◌, All, Result, ok,
  err, and_then,
}

pub record Server : Type 0 where
  pub id : String
  pub address : String

unfoldable pub filter_id : String → List Server → List Server
filter_id id [] = []
filter_id id (srv ∷ srvs) =
    let rest = filter_id id srvs in if str_eq srv.id id then rest else srv ∷ rest

-- The calls of raft.Raft that the code makes, on a state of the cluster. A removal that succeeds
-- takes the server with the id out of the latest configuration, and no other.
pub record Raft : Type 1 where
  pub Cluster : Type 0
  pub configuration : Cluster → Result (List Server)
  pub remove_server : Cluster → String → Cluster × Result (Unit {0})
  pub add_voter : Cluster → String → String → Cluster × Result (Unit {0})
  pub removes :
      (k : Cluster) (id : String) (servers : List Server)
      → configuration k ≡ ok servers
      → (remove_server k id).1 ≡ ok tt
      → configuration (remove_server k id).0 ≡ ok (filter_id id servers)

-- What the loop of Join has found out: the server is a member as it is, or the loop has ended.
pub data Scan : Type 0 where
  member absent : Scan

-- No server of the list has the id or the address.
abbrev pub IsNew : String → String → List Server → Type 0
IsNew id addr = All (λ srv. (str_eq srv.id id ≡ false) × (str_eq srv.address addr ≡ false))

module _ (raft : Raft) where
  open raft use {Cluster, configuration, remove_server, add_voter, removes}

  -- The loop of Join over the servers of the configuration.
  unfoldable pub join_loop : Cluster → String → String → List Server → Cluster × Result Scan
  join_loop k id addr [] = (k, ok absent)
  join_loop k id addr (srv ∷ srvs) =
      let same_id = str_eq srv.id id in
      let same_address = str_eq srv.address addr in
      let passed = join_loop k id addr srvs in
      let cleared : Cluster × Result Scan =
        and_then (remove_server k id) λ _ k'. join_loop k' id addr srvs in
      if same_id && same_address
      then (k, ok member)
      else if same_id || same_address
      then cleared
      else passed

  add_absent : Cluster → String → String → Scan → Cluster × Result (Unit {0})
  add_absent k id addr member = (k, ok tt)
  add_absent k id addr absent = add_voter k id addr

  -- Join
  unfoldable pub join : Cluster → String → String → Cluster × Result (Unit {0})
  unfolding join_loop add_absent
  join k id addr = elim (configuration k) [
    | err e ↦ (k, err e)
    | ok servers ↦ and_then (join_loop k id addr servers) λ found k'. add_absent k' id addr found
  ]

  -- Leave
  unfoldable pub leave : Cluster → String → Cluster × Result (Unit {0})
  leave k id = remove_server k id

  join_loop-new :
      (k : Cluster) (id addr : String) (servers : List Server)
      → IsNew id addr servers
      → join_loop k id addr servers ≡ (k, ok absent)
  unfolding join_loop
  join_loop-new k id addr [] h = refl
  join_loop-new k id addr (srv ∷ srvs) h = ground (arith, h.0, join_loop-new k id addr srvs h.1)

  join_loop-member :
      (k : Cluster) (id addr : String) (before after : List Server)
      → IsNew id addr before
      → join_loop k id addr (before ++ (record { id = id; address = addr } ∷ after))
        ≡ (k, ok member)
  unfolding join_loop
  join_loop-member k id addr [] after h = ground (arith, eq_iff id id, eq_iff addr addr)
  join_loop-member k id addr (srv ∷ before) after h =
      ground (arith, h.0, join_loop-member k id addr before after h.1)

  -- Where GetConfiguration returns servers that have neither the id nor the address, Join is one
  -- AddVoter and nothing else.
  pub join-new :
      (k : Cluster) (id addr : String) (servers : List Server)
      → IsNew id addr servers
      → configuration k ≡ ok servers
      → join k id addr ≡ add_voter k id addr
  unfolding join
  join-new k id addr servers h found = ground (arith, found, join_loop-new k id addr servers h)

  -- Where GetConfiguration returns a server with this id and address, behind servers that have
  -- neither, Join succeeds and leaves the cluster as it is.
  pub join-member :
      (k : Cluster) (id addr : String) (before after : List Server)
      → IsNew id addr before
      → configuration k ≡ ok (before ++ (record { id = id; address = addr } ∷ after))
      → join k id addr ≡ (k, ok tt)
  unfolding join
  join-member k id addr before after h found =
      ground (arith, found, join_loop-member k id addr before after h)

  -- A cluster whose one server has the joining address under another id: Join removes the joining id,
  -- not the server that it found, so that server is still in the configuration when AddVoter is
  -- called.
  pub join_keeps_stale :
      (k : Cluster) (id addr : String) (stale : Server)
      → configuration k ≡ ok (stale ∷ [])
      → str_eq stale.id id ≡ false
      → str_eq stale.address addr ≡ true
      → (remove_server k id).1 ≡ ok tt
      → (join k id addr ≡ add_voter (remove_server k id).0 id addr)
        × (configuration (remove_server k id).0 ≡ ok (stale ∷ []))
  unfolding join filter_id
  join_keeps_stale k id addr stale found other same removed = (
    ground (arith, found, other, same, removed),
    ground (arith, removes k id (stale ∷ []) found removed, other),
  )
