-- ===== src/CommitLog/Log/Lookup.antt =====
-- Read on a sound log: which segment it takes, and what it returns.
use distributed_systems_trai.Base.{
  ℕ, ◌≤◌, ◌<◌, ◌≡◌, refl, ◌⊎◌, inl, inr, none, some, List, [], ◌∷◌, ◌++◌, arith, Bool-cases,
  Option-cases, out_of_range, ok, err,
}
use distributed_systems_trai.CommitLog.Message.{Record, Codec}
use distributed_systems_trai.CommitLog.Segment.{Segment, Config}
use distributed_systems_trai.CommitLog.Segment.Reads
use distributed_systems_trai.CommitLog.Segment.Reads.{IsHealthy, Holds}
use distributed_systems_trai.CommitLog.Files.{Directory}
use distributed_systems_trai.CommitLog.Log.Operations.{covers, read_loop, read}
use distributed_systems_trai.CommitLog.Log.Invariant.{Chain, done, link, running, IsSound}
use distributed_systems_trai.CommitLog.Log.Growth
use distributed_systems_trai.CommitLog.Log.Growth.{HoldsIn}

pub Chain-le : {from : ℕ} {ss : List Segment} {upto : ℕ} → Chain from ss upto → from ≤ upto
Chain-le done = omega arith
Chain-le (link h chain) = omega (arith, h.counted, Chain-le chain)

module _ (proto : Codec) where
  -- What a chain holds lies within its offsets.
  pub HoldsIn-range :
      {from : ℕ} {ss : List Segment} {upto : ℕ} (off : ℕ) (r : Record)
      → Chain from ss upto
      → HoldsIn proto ss off r
      → (from ≤ off) × (off < upto)
  HoldsIn-range off r done h = absurd h
  HoldsIn-range off r (link g chain) (inl h) = omega (arith, h.from, h.before, Chain-le chain)
  HoldsIn-range off r (link g chain) (inr h) = omega (arith, HoldsIn-range off r chain h, g.counted)

  read_loop-found :
      {from : ℕ} {ss : List Segment} {upto : ℕ} (off : ℕ) (r : Record)
      → Chain from ss upto
      → HoldsIn proto ss off r
      → (read_loop proto ss off).1 ≡ some (ok r)
  unfolding read_loop
  read_loop-found off r done h = absurd h
  read_loop-found off r (link {s = s} g chain) (inl h) =
      ground (arith, Reads.Holds-read proto s off r g h, h.from, h.before)
  read_loop-found off r (link {s = s} g chain) (inr h) =
      ground (arith, read_loop-found off r chain h, HoldsIn-range off r chain h)

  read_loop-missing :
      {from : ℕ} {ss : List Segment} {upto : ℕ} (off : ℕ)
      → Chain from ss upto
      → (off < from) ⊎ (upto ≤ off)
      → read_loop proto ss off ≡ (ss, none)
  unfolding read_loop
  read_loop-missing off done h = refl
  read_loop-missing off (link {s = s} g chain) (inl below) =
      ground (arith, read_loop-missing off chain (inl (omega (arith, g.counted))))
  read_loop-missing off (link {s = s} g chain) (inr above) =
      ground (arith, read_loop-missing off chain (inr above), Chain-le chain)

  read_loop-HoldsIn :
      {from : ℕ} {ss : List Segment} {upto : ℕ} (off : ℕ) (r : Record)
      → Chain from ss upto
      → (read_loop proto ss off).1 ≡ some (ok r)
      → HoldsIn proto ss off r
  unfolding read_loop
  read_loop-HoldsIn off r done h = cc
  read_loop-HoldsIn off r (link {s = s} g chain) h = elim (Bool-cases (covers s off)) [
    | inl here ↦ inl (Reads.read-Holds proto s off r g (ground arith) (ground arith) (ground arith))
    | inr past ↦ inr (read_loop-HoldsIn off r chain (ground arith))
  ]

  module _ (lowest : ℕ) (c : Config) (d : Directory) (older : List Segment) (s : Segment)
      (h : IsSound lowest c d older s) (off : ℕ) where
    pub HoldsIn-read :
        (r : Record)
        → HoldsIn proto (older ++ (s ∷ [])) off r
        → (read proto (running c d older s) off).1 ≡ ok r
    unfolding read
    HoldsIn-read r g = elim (Growth.HoldsIn-cases proto older (s ∷ []) off r g) [
      | inl before ↦ ground (arith, read_loop-found off r h.chain before)
      | inr (inl here) ↦ ground (
        arith,
        read_loop-missing off h.chain (inr here.from),
        Reads.Holds-read proto s off r h.healthy here,
        here.from,
        here.before,
      )
      | inr (inr nowhere) ↦ absurd nowhere
    ]

    pub read-HoldsIn :
        (r : Record)
        → (read proto (running c d older s) off).1 ≡ ok r
        → HoldsIn proto (older ++ (s ∷ [])) off r
    unfolding read
    read-HoldsIn r e = elim (Option-cases (read_loop proto older off).1) [
      | inr (x, hit) ↦
          Growth.HoldsIn-left proto older (s ∷ []) off r
            (read_loop-HoldsIn off r h.chain (ground (arith, hit)))
      | inl miss ↦ Growth.HoldsIn-right proto older (s ∷ []) off r (
          inl (
            Reads.read-Holds proto s off r h.healthy (ground (arith, miss)) (ground (arith, miss))
              (ground (arith, miss))))
    ]

    pub read_outside :
        (off < lowest) ⊎ (s.next_offset ≤ off)
        → read proto (running c d older s) off ≡ (running c d older s, err (out_of_range off))
    unfolding read
    read_outside (inl below) =
        ground
          (arith, read_loop-missing off h.chain (inl below), Chain-le h.chain, h.healthy.counted)
    read_outside (inr above) = ground (
      arith,
      read_loop-missing off h.chain (inr (omega (arith, h.healthy.counted))),
      h.healthy.counted,
    )
