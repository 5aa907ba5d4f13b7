-- ===== src/CommitLog/Log/Capacity.antt =====
-- When Append can go on for ever, when it cannot, and what Reset does.
use distributed_systems_trai.Base.{
  ℕ, ◌+◌, ◌*◌, ◌/◌, ◌%◌, ◌^◌, ◌≤◌, ◌<◌, ◌≡◌, refl, ap, ◌∙◌, ◌⊎◌, inl, inr, false, none, List, arith,
  length, Error, eof, not_exist, ok, err, Result-cases,
}
use distributed_systems_trai.CommitLog.Message.{Record, Codec}
use distributed_systems_trai.CommitLog.Segment
use distributed_systems_trai.CommitLog.Segment.{Segment, Config}
use distributed_systems_trai.CommitLog.Segment.Reads.{HasRoom}
use distributed_systems_trai.CommitLog.Segment.RoundTrip
use distributed_systems_trai.CommitLog.Files.{Directory}
use distributed_systems_trai.CommitLog.Log.{Log, setup}
use distributed_systems_trai.CommitLog.Log.Operations.{append, close, remove, reset}
use distributed_systems_trai.CommitLog.Log.Invariant.{running, IsSound}
use distributed_systems_trai.CommitLog.Log.Growth

-- An index that is not maxed has room for an entry when its limit is a multiple of the entry width.
pub index_room :
    (s : Segment) (max : ℕ)
    → s.config.max_index_bytes ≡ max
    → max % 12 ≡ 0
    → s.index.size ≡ s.index.size / 12 * 12
    → Segment.is_maxed s ≡ false
    → s.index.size + 12 ≤ max
unfolding Segment.is_maxed
index_room s max same multiple whole unmaxed = ground arith

module _ (proto : Codec) (lowest : ℕ) (c : Config) (d : Directory) (older : List Segment)
    (s : Segment) where
  -- With an index limit that is a multiple of 12 and a positive store limit, a sound log whose
  -- active segment is not maxed never runs out of room for an entry: Append returns the next offset
  -- and leaves a sound log whose active segment is not maxed. The message must marshal, and the
  -- store's size and the offsets may not pass their 64-bit range.
  pub append_keeps_room :
      (message : Record) (p : List ℕ)
      → IsSound lowest c d older s
      → c.max_index_bytes % 12 ≡ 0
      → 0 < c.max_store_bytes
      → Segment.is_maxed s ≡ false
      → proto.to_bytes (record message { offset = s.next_offset }) ≡ ok p
      → s.store.size + (length p + 8) < 2 ^ 63
      → s.next_offset + 1 < 2 ^ 64
      → ((append proto (running c d older s) message).1 ≡ ok s.next_offset)
        × ((d' : Directory) × (older' : List Segment) × (s' : Segment) × ((append proto
                (running c d older s)
                message).0
              ≡ running c d' older' s')
            × IsSound lowest c d' older' s'
            × (Segment.is_maxed s' ≡ false))
  append_keeps_room message p h multiple positive unmaxed encoded store_room offset_room =
      let limit =
        index_room s c.max_index_bytes (ap (λ (k : Config). k.max_index_bytes) h.configured)
          multiple h.healthy.index.whole unmaxed in
      let room : HasRoom s (length p) =
        (omega (arith, limit, h.index_room), store_room, offset_room) in
      let (t, e, g) = Growth.append-Grown proto lowest c d older s message p h encoded room in
      rw e (
        refl,
        (g.directory, g.older', g.active', g.is_running, g.sound, g.unmaxed h.usable positive),
      )

  -- A sound log whose active segment has no room for an entry refuses
  -- every message with io.EOF: the segment keeps its index, offsets and configuration, and the log
  -- stays sound and no new segment is opened, so that the next Append meets the same index.
  pub append_stuck :
      (message : Record) (p : List ℕ)
      → IsSound lowest c d older s
      → c.max_index_bytes < s.index.size + 12
      → proto.to_bytes (record message { offset = s.next_offset }) ≡ ok p
      → s.store.size + (length p + 8) < 2 ^ 63
      → (t : Segment) × (append proto (running c d older s) message
          ≡ (running c d older t, err eof))
        × IsSound lowest c d older t
        × (t.index ≡ s.index)
        × (t.next_offset ≡ s.next_offset)
  unfolding append
  append_stuck message p h full encoded room =
      let (t, e, o) =
        RoundTrip.append-full proto s message p h.healthy encoded (omega (arith, h.index_room))
          room in
      (
        t,
        ground (arith, e),
        record {
          usable = h.usable;
          chain = rw o.same_base h.chain;
          healthy = o.healthy;
          configured = o.same_config ∙ h.configured;
          index_room = rw o.same_index h.index_room;
          fresh = λ f above. h.fresh f (omega (arith, o.same_base));
        },
        o.same_index,
        o.same_next,
      )

-- Reset never succeeds: either a segment cannot be closed, or the directory is removed and `setup`
-- then fails to read it.
pub reset_fails :
    (l : Log)
    → ((e : Error) × ((close l).1 ≡ err e) × ((reset l).1 ≡ err e))
      ⊎ (((close l).1 ≡ ok tt) × ((reset l).1 ≡ err not_exist) × ((reset l).0.directory ≡ none))
unfolding reset remove setup
reset_fails l = elim (Result-cases (close l).1) [
  | inr (e, failed) ↦ inl (e, failed, ground (arith, failed))
  | inl (u, closes) ↦ inr (closes, ground (arith, closes), ground (arith, closes))
]
