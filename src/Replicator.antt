-- ===== src/Replicator.antt =====
-- internal/log/replicator/replicator.go: the registry of the servers that are replicated, and the loop
-- that replicates one.
pub mod Channels
pub mod Joining
pub mod Receiving
pub mod Blocking
pub mod Copying
mod Tests
mod ReceivingTests
mod CopyingTests
use text.Mathlib.Text.{◌==◌ as str_eq}
use text.Mathlib.TextEquality.{eq_iff}
use Prim.Native.String.{String}
use distributed_systems_trai.Base.{
  ℕ, suc, ◌≡◌, refl, inl, inr, Bool, true, false, ◌||◌, Option, none, some, List, [], ◌∷◌, ◌++◌,
  map, ◌==◌, if◌then◌else◌, closed, fault, Result, ok, err, Result-cases, and_then,
}
use distributed_systems_trai.CommitLog.Message.{Record}

-- An entry of the map: the name, and which channel is its leave channel.
pub record Entry : Type 0 where
  pub name : String
  pub leave : ℕ

-- A goroutine that was started: its address and its leave channel.
pub record Worker : Type 0 where
  pub addr : String
  pub leave : ℕ

-- The channels are numbered as they are made; `shut` tells which are closed. A nil map reads as an
-- empty one, and init makes it before it is written. `close` is nil until init makes it, and then
-- tells whether the channel is closed.
pub record Replicator : Type 0 where
  pub servers : List Entry
  pub closed : Bool
  pub close : Option Bool
  pub made : ℕ
  pub shut : ℕ → Bool
  pub workers : List Worker

-- The zero value.
abbrev pub zero_value : Replicator
zero_value = record {
  servers = [];
  closed = false;
  close = none;
  made = 0;
  shut = λ c. false;
  workers = [];
}

unfoldable pub lookup : String → List Entry → Option ℕ
lookup name [] = none
lookup name (e ∷ es) =
    let rest = lookup name es in if str_eq e.name name then some e.leave else rest

unfoldable pub delete : String → List Entry → List Entry
delete name [] = []
delete name (e ∷ es) = let rest = delete name es in if str_eq e.name name then rest else e ∷ rest

make_close : Option Bool → Option Bool
make_close none = some false
make_close (some b) = some b

-- init
unfoldable pub init : Replicator → Replicator
unfolding make_close
init r = record r { close = make_close r.close }

pub start : Replicator → String → String → Option ℕ → Replicator
start r name addr (some c) = r
start r name addr none = record r {
  servers = record { name = name; leave = r.made } ∷ r.servers;
  made = suc r.made;
  workers = record { addr = addr; leave = r.made } ∷ r.workers;
}

-- Join
unfoldable pub join : Replicator → String → String → Replicator
unfolding start init lookup
join r name addr =
    let r' = init r in if r'.closed then r' else start r' name addr (lookup name r'.servers)

-- close of a leave channel, which panics if it is closed.
unfoldable pub close_leave : Replicator → ℕ → Replicator × Result (Unit {0})
close_leave r c =
    if r.shut c then (r, err fault) else (record r { shut = λ c'. (c' == c) || r.shut c' }, ok tt)

stop : Replicator → String → Option ℕ → Replicator × Result (Unit {0})
unfolding close_leave delete
stop r name none = (r, ok tt)
stop r name (some c) =
    and_then (close_leave r c) λ _ r'. (record r' { servers = delete name r'.servers }, ok tt)

-- Leave
unfoldable pub leave : Replicator → String → Replicator × Result (Unit {0})
unfolding stop init lookup
leave r name = let r' = init r in stop r' name (lookup name r'.servers)

-- close of the channel of the replicator; closing nil or a closed one panics.
pub shut_down : Replicator → Option Bool → Replicator × Result (Unit {0})
shut_down r none = (r, err fault)
shut_down r (some true) = (r, err fault)
shut_down r (some false) = (record r { close = some true }, ok tt)

-- Close
unfoldable pub close : Replicator → Replicator × Result (Unit {0})
unfolding shut_down init
close r =
    let r' = init r in
    if r'.closed then (r', ok tt) else shut_down (record r' { closed = true }) r'.close

pub data Call : Type 0 where
  joins : String → String → Call
  leaves : String → Call
  closes : Call

unfoldable pub call : Replicator → Call → Replicator × Result (Unit {0})
unfolding join leave close
call r (joins name addr) = (join r name addr, ok tt)
call r (leaves name) = leave r name
call r closes = close r

-- Calls in the order in which they take the mutex.
unfoldable pub calls : Replicator → List Call → Replicator × Result (Unit {0})
unfolding call
calls r [] = (r, ok tt)
calls r (c ∷ cs) = and_then (call r c) λ _ r'. calls r' cs

-- What the select of replicate meets.
pub data Signal : Type 0 where
  closing leaving : Signal
  received : Record → Signal

module _ {S : Type 0} (produce : S → Record → S × Result ℕ) where
  -- The loop of replicate, on the state of the local server.
  unfoldable pub replicate_loop : S → List Signal → S
  replicate_loop s [] = s
  replicate_loop s (closing ∷ more) = s
  replicate_loop s (leaving ∷ more) = s
  replicate_loop s (received r ∷ more) =
      let (s', outcome) = produce s r in
      elim outcome [ err e ↦ s' | ok off ↦ replicate_loop s' more ]

  -- Producing the records one after the other until one fails.
  unfoldable pub produce_all : S → List Record → S × Result (Unit {0})
  produce_all s [] = (s, ok tt)
  produce_all s (r ∷ rs) = and_then (produce s r) λ off s'. produce_all s' rs

  replicate_loop-produce_all :
      (s : S) (rs : List Record) (more : List Signal)
      → replicate_loop s (map received rs ++ (leaving ∷ more)) ≡ (produce_all s rs).0
  unfolding replicate_loop produce_all
  replicate_loop-produce_all s [] more = refl
  replicate_loop-produce_all s (r ∷ rs) more = elim (Result-cases (produce s r).1) [
    | inl (off, done) ↦ rw done (replicate_loop-produce_all (produce s r).0 rs more)
    | inr (e, failed) ↦ rw failed refl
  ]

  replicate_loop-closing :
      (s : S) (rs : List Record) (more : List Signal)
      → replicate_loop s (map received rs ++ (closing ∷ more)) ≡ (produce_all s rs).0
  unfolding replicate_loop produce_all
  replicate_loop-closing s [] more = refl
  replicate_loop-closing s (r ∷ rs) more = elim (Result-cases (produce s r).1) [
    | inl (off, done) ↦ rw done (replicate_loop-closing (produce s r).0 rs more)
    | inr (e, failed) ↦ rw failed refl
  ]

  -- The loop of replicate produces the records that it receives, in this order, to the local server,
  -- until one fails or the leave channel or that of the replicator is closed; what comes after that
  -- is not produced.
  pub replicate_loop_lem :
      (s : S) (rs : List Record) (more : List Signal)
      → (replicate_loop s (map received rs ++ (leaving ∷ more)) ≡ (produce_all s rs).0)
        × (replicate_loop s (map received rs ++ (closing ∷ more)) ≡ (produce_all s rs).0)
  replicate_loop_lem s rs more =
      (replicate_loop-produce_all s rs more, replicate_loop-closing s rs more)
