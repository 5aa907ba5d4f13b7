-- ===== src/CommitLog/Log/Contract.antt =====
-- What a log promises its callers.
use distributed_systems_trai.Base.{
  ℕ, ◌+◌, ◌-◌, ◌≤◌, ◌<◌, ◌≡◌, refl, sym, ap, ◌⊎◌, List, [], ◌∷◌, ◌++◌, arith, length, out_of_range,
  ok, err,
}
use distributed_systems_trai.CommitLog.Message.{Record, Codec}
use distributed_systems_trai.CommitLog.Segment.{Segment, Config}
use distributed_systems_trai.CommitLog.Segment.Reads.{HasRoom}
use distributed_systems_trai.CommitLog.Files.{Directory}
use distributed_systems_trai.CommitLog.Log.Operations.{
  append, read, lowest_offset, highest_offset, first_base, last_next,
}
use distributed_systems_trai.CommitLog.Log.Invariant.{Chain, done, link, running, IsSound}
use distributed_systems_trai.CommitLog.Log.Growth
use distributed_systems_trai.CommitLog.Log.Lookup

last_next-append : (ss : List Segment) (s : Segment) → last_next (ss ++ (s ∷ [])) ≡ ok s.next_offset
unfolding last_next
last_next-append [] s = refl
last_next-append (t ∷ []) s = refl
last_next-append (t ∷ u ∷ ss) s = last_next-append (u ∷ ss) s

first_base-Chain :
    {from : ℕ} {ss : List Segment} {upto : ℕ} (s : Segment)
    → Chain from ss upto
    → upto ≡ s.base_offset
    → first_base (ss ++ (s ∷ [])) ≡ ok from
unfolding first_base
first_base-Chain s done e = ap ok (sym e)
first_base-Chain s (link g chain) e = refl

module _ (proto : Codec) (lowest : ℕ) (c : Config) (d : Directory) (older : List Segment)
    (s : Segment) where
  -- On a sound log with room for the marshalled message, Append returns the next offset, and Read at
  -- that offset returns the message with that offset in it; the next offset grows by 1, and the log
  -- stays sound, with the same lowest offset.
  pub read-append_log :
      (message : Record) (p : List ℕ)
      → IsSound lowest c d older s
      → proto.to_bytes (record message { offset = s.next_offset }) ≡ ok p
      → HasRoom s (length p)
      → ((append proto (running c d older s) message).1 ≡ ok s.next_offset)
        × ((read proto (append proto (running c d older s) message).0 s.next_offset).1
            ≡ ok (record message { offset = s.next_offset }))
        × ((d' : Directory) × (older' : List Segment) × (s' : Segment) × ((append proto
                (running c d older s)
                message).0
              ≡ running c d' older' s')
            × IsSound lowest c d' older' s'
            × (s'.next_offset ≡ s.next_offset + 1))
  read-append_log message p h encoded room =
      let (t, e, g) = Growth.append-Grown proto lowest c d older s message p h encoded room in
      rw e (
        refl,
        rw g.is_running (
            Lookup.HoldsIn-read proto lowest c g.directory g.older' g.active' g.sound s.next_offset
              _ g.holds),
        (g.directory, g.older', g.active', g.is_running, g.sound, g.next_offset),
      )

  -- What Read returned before an Append to a sound log with room, it returns after it.
  pub read-append_log_old :
      (message : Record) (p : List ℕ) (off : ℕ) (r : Record)
      → IsSound lowest c d older s
      → proto.to_bytes (record message { offset = s.next_offset }) ≡ ok p
      → HasRoom s (length p)
      → (read proto (running c d older s) off).1 ≡ ok r
      → (read proto (append proto (running c d older s) message).0 off).1 ≡ ok r
  read-append_log_old message p off r h encoded room e =
      let (t, eq, g) = Growth.append-Grown proto lowest c d older s message p h encoded room in
      let before = Lookup.read-HoldsIn proto lowest c d older s h off r e in
      rw (eq, g.is_running)
        (Lookup.HoldsIn-read proto lowest c g.directory g.older' g.active' g.sound off r
          (g.keeps off r before))

  -- On a sound log, LowestOffset is the first offset, and HighestOffset the one before the next, or 0
  -- if that is 0.
  pub offsets_of_log :
      IsSound lowest c d older s
      → (lowest_offset (running c d older s) ≡ ok lowest)
        × (highest_offset (running c d older s) ≡ ok (s.next_offset - 1))
  unfolding lowest_offset highest_offset
  offsets_of_log h = (first_base-Chain s h.chain refl, rw (last_next-append older s) (ground arith))

  -- On a sound log, Read of an offset below the lowest or from the next one on is
  -- ErrOffsetOutOfRange with that offset, and changes nothing.
  pub read_out_of_range :
      (off : ℕ)
      → IsSound lowest c d older s
      → (off < lowest) ⊎ (s.next_offset ≤ off)
      → read proto (running c d older s) off ≡ (running c d older s, err (out_of_range off))
  read_out_of_range off h outside = Lookup.read_outside proto lowest c d older s h off outside
