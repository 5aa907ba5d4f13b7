-- ===== src/CommitLog/Log/Rereading.antt =====
-- What Read leaves of a log.
use distributed_systems_trai.Base.{
  ℕ, ◌≡◌, refl, sym, ap, ◌∙◌, ◌⊎◌, inl, inr, List, [], ◌∷◌, ◌++◌, append-nil, arith, Bool-cases,
  Option-cases, length, Result-cases,
}
use distributed_systems_trai.Base.Words.{sub64}
use distributed_systems_trai.CommitLog.Store.Writer.{bytes}
use distributed_systems_trai.CommitLog.Store.Frames
use distributed_systems_trai.CommitLog.Index
use distributed_systems_trai.CommitLog.Message.{Record, Codec}
use distributed_systems_trai.CommitLog.Segment
use distributed_systems_trai.CommitLog.Segment.{Segment, Config}
use distributed_systems_trai.CommitLog.Segment.Reads.{IsHealthy, Holds}
use distributed_systems_trai.CommitLog.Files.{Directory}
use distributed_systems_trai.CommitLog.Log.{Log}
use distributed_systems_trai.CommitLog.Log.Operations.{covers, read_loop, read}
use distributed_systems_trai.CommitLog.Log.Invariant.{Chain, done, link, running, IsSound}
use distributed_systems_trai.CommitLog.Log.Growth.{HoldsIn}
use distributed_systems_trai.CommitLog.Log.Stored.{Stored, none_stored, stored}

-- The segment with its store's buffer written to the file.
abbrev pub flushed_segment : Segment → Segment
flushed_segment s = record s { store = record s.store { contents = bytes s.store; pending = [] } }

-- Some of the segments were flushed.
pub data Reread : List Segment → List Segment → Type 0 where
  none_left : Reread [] []
  as_before : {s : Segment} {ss ts : List Segment} → Reread ss ts → Reread (s ∷ ss) (s ∷ ts)
  flushed :
      {s : Segment} {ss ts : List Segment} → Reread ss ts → Reread (s ∷ ss) (flushed_segment s ∷ ts)

Reread-refl : (ss : List Segment) → Reread ss ss
Reread-refl [] = none_left
Reread-refl (s ∷ ss) = as_before (Reread-refl ss)

Reread-append :
    {ss ts us vs : List Segment} → Reread ss ts → Reread us vs → Reread (ss ++ us) (ts ++ vs)
Reread-append none_left g = g
Reread-append (as_before h) g = as_before (Reread-append h g)
Reread-append (flushed h) g = flushed (Reread-append h g)

pub flushed-IsHealthy : (s : Segment) → IsHealthy s → IsHealthy (flushed_segment s)
flushed-IsHealthy s h = record {
  store = record {
    is_open = h.store.is_open;
    unfailed = h.store.unfailed;
    sized = h.store.sized ∙ ap length (sym (append-nil (bytes s.store)));
  };
  store_small = h.store_small;
  index = h.index;
  counted = h.counted;
  few = h.few;
  bounded = h.bounded;
  last_entry = h.last_entry;
}

Chain-Reread :
    {from : ℕ} {ss ts : List Segment} {upto : ℕ}
    → Reread ss ts
    → Chain from ss upto
    → Chain from ts upto
Chain-Reread none_left done = done
Chain-Reread (as_before r) (link h chain) = link h (Chain-Reread r chain)
Chain-Reread (flushed r) (link {s = s} h chain) =
    link {s = flushed_segment s} (flushed-IsHealthy s h) (Chain-Reread r chain)

pub Stored-Reread :
    {room low : ℕ} {d : Directory} {ss ts : List Segment}
    → Reread ss ts
    → Stored room low d ss
    → Stored room low d ts
Stored-Reread none_left none_stored = none_stored
Stored-Reread (as_before r) (stored x y from fits rest) =
    stored x y from fits (Stored-Reread r rest)
Stored-Reread (flushed r) (stored {s = s} x y from fits rest) =
    stored {s = flushed_segment s} x y from fits (Stored-Reread r rest)

module _ (proto : Codec) where
  Holds-flushed :
      (s : Segment) (off : ℕ) (r : Record)
      → Holds proto s off r
      → Holds proto (flushed_segment s) off r
  Holds-flushed s off r g = record {
    relative = g.relative;
    position = g.position;
    payload = g.payload;
    from = g.from;
    before = g.before;
    entry = g.entry;
    frame = rw (append-nil (bytes s.store)) g.frame;
    decoded = g.decoded;
  }

  pub HoldsIn-Reread :
      {ss ts : List Segment} (off : ℕ) (r : Record)
      → Reread ss ts
      → HoldsIn proto ss off r
      → HoldsIn proto ts off r
  HoldsIn-Reread off r none_left g = g
  HoldsIn-Reread off r (as_before h) (inl g) = inl g
  HoldsIn-Reread off r (as_before h) (inr g) = inr (HoldsIn-Reread off r h g)
  HoldsIn-Reread off r (flushed {s = s} h) (inl g) = inl (Holds-flushed s off r g)
  HoldsIn-Reread off r (flushed h) (inr g) = inr (HoldsIn-Reread off r h g)

  read-one :
      (s : Segment) (off : ℕ)
      → IsHealthy s
      → ((Segment.read proto s off).0 ≡ s) ⊎ ((Segment.read proto s off).0 ≡ flushed_segment s)
  unfolding Segment.read
  read-one s off h = elim (Result-cases (Index.read s.index (sub64 off s.base_offset))) [
    | inr (e, missing) ↦ inl (ground (arith, missing))
    | inl ((relative, position), entry) ↦
        inr (ground (arith, entry, Frames.read-state s.store position h.store h.store_small))
  ]

  read-Reread :
      (s : Segment) (ss : List Segment) (off : ℕ)
      → IsHealthy s
      → Reread (s ∷ ss) ((Segment.read proto s off).0 ∷ ss)
  read-Reread s ss off h = elim (read-one s off h) [
    | inl same ↦ rw same (as_before (Reread-refl ss))
    | inr changed ↦ rw changed (flushed (Reread-refl ss))
  ]

  read_loop-Reread :
      {from : ℕ} {ss : List Segment} {upto : ℕ} (off : ℕ)
      → Chain from ss upto
      → Reread ss (read_loop proto ss off).0
  unfolding read_loop
  read_loop-Reread off done = none_left
  read_loop-Reread off (link {s = s} {ss = ss} h chain) = elim (Bool-cases (covers s off)) [
    | inl here ↦ rw here (read-Reread s ss off h)
    | inr past ↦ rw past (as_before (read_loop-Reread off chain))
  ]

  -- The log that Read leaves.
  pub record Left (c : Config) (d : Directory) (older : List Segment) (s : Segment) (l : Log)
      : Type 0 where
    pub older' : List Segment
    pub active' : Segment
    pub is_running : l ≡ running c d older' active'
    pub olders : Reread older older'
    pub active : (active' ≡ s) ⊎ (active' ≡ flushed_segment s)

  pub read-Left :
      (lowest : ℕ) (c : Config) (d : Directory) (older : List Segment) (s : Segment) (off : ℕ)
      → IsSound lowest c d older s
      → Left c d older s (read proto (running c d older s) off).0
  unfolding read
  read-Left lowest c d older s off h =
      let older' = (read_loop proto older off).0 in
      let olders = read_loop-Reread off h.chain in
      elim (Option-cases (read_loop proto older off).1) [
        | inr (x, hit) ↦ record {
          older' = older';
          active' = s;
          is_running = ground (arith, hit);
          olders = olders;
          active = inl refl;
        }
        | inl miss ↦ elim (Bool-cases (covers s off)) [
          | inl here ↦ record {
            older' = older';
            active' = (Segment.read proto s off).0;
            is_running = ground (arith, miss, here);
            olders = olders;
            active = read-one s off h.healthy;
          }
          | inr past ↦ record {
            older' = older';
            active' = s;
            is_running = ground (arith, miss, past);
            olders = olders;
            active = inl refl;
          }
        ]
      ]

  module _ {lowest : ℕ} {c : Config} {d : Directory} {older : List Segment} {s : Segment} {l : Log}
      (h : IsSound lowest c d older s) (g : Left c d older s l) where
    pub Left-Reread : Reread (older ++ (s ∷ [])) (g.older' ++ (g.active' ∷ []))
    Left-Reread = elim g.active [
      | inl same ↦ rw same (Reread-append g.olders (as_before none_left))
      | inr changed ↦ rw changed (Reread-append g.olders (flushed none_left))
    ]

    changed-IsSound :
        (t : Segment) → (t ≡ s) ⊎ (t ≡ flushed_segment s) → IsSound lowest c d g.older' t
    changed-IsSound t (inl same) = rw same (record {
      usable = h.usable;
      chain = Chain-Reread g.olders h.chain;
      healthy = h.healthy;
      configured = h.configured;
      index_room = h.index_room;
      fresh = h.fresh;
    })
    changed-IsSound t (inr changed) = rw changed (record {
      usable = h.usable;
      chain = Chain-Reread g.olders h.chain;
      healthy = flushed-IsHealthy s h.healthy;
      configured = h.configured;
      index_room = h.index_room;
      fresh = h.fresh;
    })

    pub Left-IsSound : IsSound lowest c d g.older' g.active'
    Left-IsSound = changed-IsSound g.active' g.active
