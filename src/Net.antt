-- ===== src/Net.antt =====
-- internal/net/random_port.go. The random numbers and the listening are parameters.
pub mod Tls
pub mod Client
mod Tests
use distributed_systems_trai.Base.{
  ℕ, zero, suc, ◌+◌, ◌-◌, ◌%◌, ◌≤◌, ◌<◌, ◌≡◌, subst, inl, inr, Bool, true, not, arith,
  if◌then◌else◌, Bool-cases, not_exist, Result, ok, err,
}

abbrev pub min_port : ℕ
min_port = 1024

abbrev pub max_port : ℕ
max_port = 65535

-- isPortOpen, on whether listening on the port succeeds.
abbrev pub is_port_open : (ℕ → Bool) → ℕ → Bool
is_port_open listens port = not (listens port)

-- The loop of GetAvailablePort: `draws i` is the number that rand.Intn draws in round i, and
-- `listens i` tells whether one can listen on a port in that round. No port is `not_exist`.
unfoldable pub find_port : ℕ → (ℕ → ℕ) → (ℕ → ℕ → Bool) → Result ℕ
find_port zero draws listens = err not_exist
find_port (suc rounds) draws listens =
    let port = draws 0 % (max_port - min_port) + min_port in
    let rest = find_port rounds (λ i. draws (suc i)) (λ i. listens (suc i)) in
    if not (is_port_open (listens 0) port) then ok port else rest

-- GetAvailablePort
unfoldable pub get_available_port : (ℕ → ℕ) → (ℕ → ℕ → Bool) → Result ℕ
unfolding find_port
get_available_port = find_port 1000

find_port_bounds :
    (rounds : ℕ) (draws : ℕ → ℕ) (listens : ℕ → ℕ → Bool) (port : ℕ)
    → find_port rounds draws listens ≡ ok port
    → (min_port ≤ port) × (port < max_port) × ((i : ℕ) × (i < rounds) × (listens i port ≡ true))
unfolding find_port
find_port_bounds zero draws listens port h = cc h
find_port_bounds (suc rounds) draws listens port h =
    let first = draws 0 % (max_port - min_port) + min_port in
    elim (Bool-cases (listens 0 first)) [
      | inl free ↦
          let same : first ≡ port = ground (arith, h, free) in
          (
            omega (arith, same),
            omega (arith, same),
            (0, omega arith, subst (λ p. listens 0 p ≡ true) same free),
          )
      | inr taken ↦
          let (low, high, (i, before, free)) =
            find_port_bounds rounds (λ i. draws (suc i)) (λ i. listens (suc i)) port
              (ground (arith, h, taken)) in
          (low, high, (suc i, omega (arith, before), free))
    ]

-- A port that GetAvailablePort returns is between 1024 and 65534, and one could listen on it in one of
-- the thousand rounds.
pub get_available_port_bounds :
    (draws : ℕ → ℕ) (listens : ℕ → ℕ → Bool) (port : ℕ)
    → get_available_port draws listens ≡ ok port
    → (1024 ≤ port) × (port ≤ 65534) × ((i : ℕ) × (i < 1000) × (listens i port ≡ true))
unfolding get_available_port
get_available_port_bounds draws listens port h =
    let (low, high, free) = find_port_bounds 1000 draws listens port h in
    (omega (arith, low), omega (arith, high), free)
