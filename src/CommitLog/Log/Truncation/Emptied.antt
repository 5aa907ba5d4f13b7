-- ===== src/CommitLog/Log/Truncation/Emptied.antt =====
-- Truncate at or above the last offset.
use distributed_systems_trai.Base.{
  ℕ, ◌+◌, ◌^◌, ◌≤◌, ◌<◌, ◌≡◌, refl, false, Option, some, List, [], ◌∷◌, arith, Error, fault,
  out_of_range, ok, err,
}
use distributed_systems_trai.CommitLog.Message.{Record, Codec}
use distributed_systems_trai.CommitLog.Segment.{Segment, Config}
use distributed_systems_trai.CommitLog.Segment.RoundTrip
use distributed_systems_trai.CommitLog.Segment.Reopen.{closed_segment}
use distributed_systems_trai.CommitLog.Files.{Directory}
use distributed_systems_trai.CommitLog.Log.{dropped, segments}
use distributed_systems_trai.CommitLog.Log.Operations.{
  Marked, kept, truncate_loop, truncate, removed, read, append, lowest_offset, highest_offset,
}
use distributed_systems_trai.CommitLog.Log.Invariant.{Chain, done, link, running, IsSound}
use distributed_systems_trai.CommitLog.Log.Lookup
use distributed_systems_trai.CommitLog.Log.Truncation.{removed-some, truncate_one-dropped}

truncate_loop-all :
    {from : ℕ} {ss : List Segment} {upto : ℕ} (n : ℕ) (d : Directory)
    → n + 1 < 2 ^ 64
    → Chain from ss upto
    → upto ≤ n + 1
    → (ms : Marked) × (d' : Directory) × (truncate_loop n ss (some d) ≡ ((ms, some d'), ok tt))
      × (kept ms ≡ [])
unfolding truncate_loop kept
truncate_loop-all n d small done below = ([], d, refl, refl)
truncate_loop-all n d small (link {s = s} h chain) below =
    let (d₁, e₁, absent₁) = removed-some (closed_segment s) d in
    let (ms, d₂, loops, nothing) = truncate_loop-all n d₁ small chain below in
    let under : s.next_offset ≤ n + 1 = omega (arith, Lookup.Chain-le chain) in
    (
      (closed_segment s, false) ∷ ms,
      d₂,
      ground (arith, truncate_one-dropped n s small under h, e₁, loops),
      nothing,
    )

module _ (proto : Codec) (lowest : ℕ) (c : Config) (d : Directory) (older : List Segment)
    (s : Segment) (n : ℕ) (h : IsSound lowest c d older s) (small : n + 1 < 2 ^ 64) where
  truncate-emptied :
      s.next_offset ≤ n + 1
      → (d' : Option Directory) × (truncate (running c d older s) n ≡ (
        record { config = c; directory = d'; older = []; active = dropped (closed_segment s) },
        ok tt,
      ))
  unfolding truncate
  truncate-emptied below =
      let (ms, d₁, loops, nothing) =
        truncate_loop-all n d small h.chain (omega (arith, h.healthy.counted)) in
      (
        removed (closed_segment s) (some d₁),
        ground (arith, loops, nothing, truncate_one-dropped n s small below h.healthy),
      )

  append-dropped :
      (d' : Option Directory) (message : Record)
      → (e : Error) × ((append proto
            (record { config = c; directory = d'; older = []; active = dropped (closed_segment s) })
            message).1
          ≡ err e)
  unfolding append
  append-dropped d' message =
      let (e, failed) = RoundTrip.append-closed proto (closed_segment s) message refl in
      (e, ground (arith, failed))

  -- Truncating a sound log at or above its last offset, but below 2^64 - 1, succeeds and leaves no
  -- segment: then LowestOffset and HighestOffset panic, every Read is out of range, and Append to the segment
  -- that is still the active one fails, whatever the message.
  pub truncate-all :
      (off : ℕ) (message : Record)
      → s.next_offset ≤ n + 1
      → ((truncate (running c d older s) n).1 ≡ ok tt)
        × (segments (truncate (running c d older s) n).0 ≡ [])
        × (lowest_offset (truncate (running c d older s) n).0 ≡ err fault)
        × (highest_offset (truncate (running c d older s) n).0 ≡ err fault)
        × ((read proto (truncate (running c d older s) n).0 off).1 ≡ err (out_of_range off))
        × ((e : Error) × ((append proto (truncate (running c d older s) n).0 message).1 ≡ err e))
  truncate-all off message below =
      let (d', emptied) = truncate-emptied below in
      let (e, failed) = append-dropped d' message in
      rw emptied (
        refl,
        refl,
        (unfold lowest_offset in refl),
        (unfold highest_offset in refl),
        (unfold read in refl),
        (e, failed),
      )
