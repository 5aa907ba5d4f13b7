-- ===== src/CommitLog/Log/Growth.antt =====
-- What Append makes of a sound log, with or without a new segment.
use distributed_systems_trai.Base.{
  ℕ, ◌+◌, ◌<◌, ◌≡◌, refl, sym, ◌∙◌, subst, ◌⊎◌, inl, inr, true, false, List, [], ◌∷◌, ◌++◌,
  append_assoc, append-nil, ap, arith, Bool-cases, length, ok,
}
use distributed_systems_trai.Base.Words.{add64}
use distributed_systems_trai.CommitLog.Message.{Record, Codec}
use distributed_systems_trai.CommitLog.Index.Reopening
use distributed_systems_trai.CommitLog.Segment
use distributed_systems_trai.CommitLog.Segment.{Segment, Config}
use distributed_systems_trai.CommitLog.Segment.Reads
use distributed_systems_trai.CommitLog.Segment.Reads.{IsHealthy, HasRoom, Holds}
use distributed_systems_trai.CommitLog.Files
use distributed_systems_trai.CommitLog.Files.{Directory}
use distributed_systems_trai.CommitLog.Log.{Log}
use distributed_systems_trai.CommitLog.Log.Operations.{append}
use distributed_systems_trai.CommitLog.Store
use distributed_systems_trai.CommitLog.Store.Frames
use distributed_systems_trai.CommitLog.Store.Writer.{bytes}
use distributed_systems_trai.CommitLog.Log.Reader.Whole.{bytes_of}
use distributed_systems_trai.CommitLog.Log.Stored.{Stored, Stored-grown, Stored-next}
use distributed_systems_trai.CommitLog.Log.Invariant.{
  Chain, done, link, running, IsUsable, IsSound, fresh_segment, fresh_segment-IsHealthy,
  fresh_segment-unmaxed, with_files, new_segment-running, lookup-with_files,
}

pub Chain-snoc :
    {from : ℕ} {older : List Segment} {upto : ℕ} (s : Segment)
    → Chain from older upto
    → upto ≡ s.base_offset
    → IsHealthy s
    → Chain from (older ++ (s ∷ [])) s.next_offset
Chain-snoc s done e h = subst (λ n. Chain n (s ∷ []) s.next_offset) (sym e) (link h done)
Chain-snoc s (link g chain) e h = link g (Chain-snoc s chain e h)

module _ (proto : Codec) where
  -- Some segment of the list holds the record.
  abbrev pub HoldsIn : List Segment → ℕ → Record → Type 0
  HoldsIn [] off r = ⊥
  HoldsIn (s ∷ ss) off r = Holds proto s off r ⊎ HoldsIn ss off r

  pub HoldsIn-left :
      (ss ts : List Segment) (off : ℕ) (r : Record) → HoldsIn ss off r → HoldsIn (ss ++ ts) off r
  HoldsIn-left [] ts off r h = absurd h
  HoldsIn-left (s ∷ ss) ts off r (inl h) = inl h
  HoldsIn-left (s ∷ ss) ts off r (inr h) = inr (HoldsIn-left ss ts off r h)

  pub HoldsIn-right :
      (ss ts : List Segment) (off : ℕ) (r : Record) → HoldsIn ts off r → HoldsIn (ss ++ ts) off r
  HoldsIn-right [] ts off r h = h
  HoldsIn-right (s ∷ ss) ts off r h = inr (HoldsIn-right ss ts off r h)

  pub HoldsIn-cases :
      (ss ts : List Segment) (off : ℕ) (r : Record)
      → HoldsIn (ss ++ ts) off r
      → HoldsIn ss off r ⊎ HoldsIn ts off r
  HoldsIn-cases [] ts off r h = inr h
  HoldsIn-cases (s ∷ ss) ts off r (inl h) = inl (inl h)
  HoldsIn-cases (s ∷ ss) ts off r (inr h) = elim (HoldsIn-cases ss ts off r h) [
    | inl g ↦ inl (inr g)
    | inr g ↦ inr g
  ]

  -- The log `running c d older s` after `message` was appended at `off`.
  pub record Grown (lowest : ℕ) (c : Config) (d : Directory) (older : List Segment) (s : Segment)
      (message : Record) (p : List ℕ) (t : Log) : Type 0 where
    pub directory : Directory
    pub older' : List Segment
    pub active' : Segment
    pub is_running : t ≡ running c directory older' active'
    pub sound : IsSound lowest c directory older' active'
    pub next_offset : active'.next_offset ≡ s.next_offset + 1
    pub holds :
        HoldsIn (older' ++ (active' ∷ [])) s.next_offset (record message { offset = s.next_offset })
    pub keeps :
        (off : ℕ) (r : Record)
        → HoldsIn (older ++ (s ∷ [])) off r
        → HoldsIn (older' ++ (active' ∷ [])) off r
    pub grown_bytes :
        bytes_of (older' ++ (active' ∷ [])) ≡ bytes_of (older ++ (s ∷ [])) ++ Frames.frame p
    pub keeps_files :
        Stored c.max_index_bytes 0 d (older ++ (s ∷ []))
        → Stored c.max_index_bytes 0 directory (older' ++ (active' ∷ []))
    pub unmaxed : IsUsable c → 0 < c.max_store_bytes → Segment.is_maxed active' ≡ false

  module _ (lowest : ℕ) (c : Config) (d : Directory) (older : List Segment) (s : Segment)
      (message : Record) (p : List ℕ) (h : IsSound lowest c d older s)
      (encoded : proto.to_bytes (record message { offset = s.next_offset }) ≡ ok p)
      (room : HasRoom s (length p)) where
    grown_active : Segment
    grown_active = (Reads.append-Appended proto s message p h.healthy encoded room).0

    grown_lem : Reads.Appended proto s message p grown_active
    unfolding grown_active
    grown_lem = (Reads.append-Appended proto s message p h.healthy encoded room).2

    segment_lem : Segment.append proto s message ≡ (grown_active, ok s.next_offset)
    unfolding grown_active
    segment_lem = (Reads.append-Appended proto s message p h.healthy encoded room).1

    kept_record :
        (off : ℕ) (r : Record)
        → HoldsIn (older ++ (s ∷ [])) off r
        → HoldsIn (older ++ (grown_active ∷ [])) off r
    kept_record off r g = elim (HoldsIn-cases older (s ∷ []) off r g) [
      | inl before ↦ HoldsIn-left older (grown_active ∷ []) off r before
      | inr (inl here) ↦ HoldsIn-right older (grown_active ∷ []) off r (
          inl (
            rw segment_lem at
              (Reads.Holds-append proto s message p off r h.healthy encoded room here)))
      | inr (inr nowhere) ↦ absurd nowhere
    ]

    append-stays :
        Segment.is_maxed grown_active ≡ false
        → append proto (running c d older s) message
          ≡ (running c d older grown_active, ok s.next_offset)
    unfolding append
    append-stays unmaxed = ground (arith, segment_lem, unmaxed)

    append-rotates :
        Segment.is_maxed grown_active ≡ true
        → append proto (running c d older s) message ≡ (
          running c
              (with_files (s.next_offset + 1) d)
              (older ++ (grown_active ∷ []))
              (fresh_segment (s.next_offset + 1) c),
          ok s.next_offset,
        )
    unfolding append
    append-rotates maxed =
        let next : add64 s.next_offset 1 ≡ s.next_offset + 1 = omega arith in
        let above : s.base_offset < s.next_offset + 1 = omega (arith, h.healthy.counted) in
        let opens =
          new_segment-running c d older grown_active (s.next_offset + 1) h.usable
            (h.fresh (Files.store_of (s.next_offset + 1)) above)
            (h.fresh (Files.index_of (s.next_offset + 1)) above) in
        ground (arith, segment_lem, maxed, next, opens)

    stays-IsSound : IsSound lowest c d older grown_active
    stays-IsSound = record {
      usable = h.usable;
      chain = subst (Chain lowest older) (sym grown_lem.base_offset) h.chain;
      healthy = grown_lem.healthy;
      configured = grown_lem.config ∙ h.configured;
      index_room = grown_lem.index_room ∙ h.index_room;
      fresh = λ f above. h.fresh f (omega (arith, grown_lem.base_offset));
    }

    rotates-IsSound :
        IsSound lowest c
          (with_files (s.next_offset + 1) d)
          (older ++ (grown_active ∷ []))
          (fresh_segment (s.next_offset + 1) c)
    rotates-IsSound = record {
      usable = h.usable;
      chain =
          subst (Chain lowest (older ++ (grown_active ∷ []))) grown_lem.next_offset
            (Chain-snoc grown_active h.chain (sym grown_lem.base_offset) grown_lem.healthy);
      healthy = fresh_segment-IsHealthy (s.next_offset + 1) c h.usable (omega arith);
      configured = refl;
      index_room = Reopening.length-resize c.max_index_bytes [];
      fresh = λ f above.
          lookup-with_files (s.next_offset + 1) d f above
          ∙ h.fresh f (omega (arith, h.healthy.counted));
    }

    holds_new :
        HoldsIn
          (older ++ (grown_active ∷ []))
          s.next_offset
          (record message { offset = s.next_offset })
    holds_new = HoldsIn-right older (grown_active ∷ []) s.next_offset _ (inl grown_lem.holds)

    bytes_of-grown :
        (ss : List Segment)
        → bytes_of (ss ++ (grown_active ∷ [])) ≡ bytes_of (ss ++ (s ∷ [])) ++ Frames.frame p
    bytes_of-grown [] =
        append-nil (bytes grown_active.store)
        ∙ grown_lem.grown
        ∙ ap (λ l. l ++ Frames.frame p) (sym (append-nil (bytes s.store)))
    bytes_of-grown (t ∷ ss) =
        ap (λ l. bytes t.store ++ l) (bytes_of-grown ss)
        ∙ sym (append_assoc (bytes t.store) (bytes_of (ss ++ (s ∷ []))) (Frames.frame p))

    bytes_of-fresh :
        (off : ℕ) (ss : List Segment) → bytes_of (ss ++ (fresh_segment off c ∷ [])) ≡ bytes_of ss
    bytes_of-fresh off [] = append-nil (bytes (Store.new_store [])) ∙ Frames.bytes-new_store []
    bytes_of-fresh off (t ∷ ss) = ap (λ l. bytes t.store ++ l) (bytes_of-fresh off ss)

    stays-Grown :
        Segment.is_maxed grown_active ≡ false
        → Grown lowest c d older s message p (running c d older grown_active)
    stays-Grown unmaxed = record {
      directory = d;
      older' = older;
      active' = grown_active;
      is_running = refl;
      sound = stays-IsSound;
      next_offset = grown_lem.next_offset;
      holds = holds_new;
      keeps = kept_record;
      grown_bytes = bytes_of-grown older;
      keeps_files = λ g.
          Stored-grown older s grown_active g grown_lem.base_offset
            (omega (arith, grown_lem.index_size, h.index_room, room));
      unmaxed = λ u pos. unmaxed;
    }

    rotates-Grown : Grown lowest c d older s message p (
        running c
          (with_files (s.next_offset + 1) d)
          (older ++ (grown_active ∷ []))
          (fresh_segment (s.next_offset + 1) c))
    rotates-Grown =
        let next = fresh_segment (s.next_offset + 1) c in
        record {
          directory = with_files (s.next_offset + 1) d;
          older' = older ++ (grown_active ∷ []);
          active' = next;
          is_running = refl;
          sound = rotates-IsSound;
          next_offset = refl;
          holds = HoldsIn-left (older ++ (grown_active ∷ [])) (next ∷ []) s.next_offset _ holds_new;
          keeps = λ off r g.
              HoldsIn-left (older ++ (grown_active ∷ [])) (next ∷ []) off r (kept_record off r g);
          grown_bytes =
              bytes_of-fresh (s.next_offset + 1) (older ++ (grown_active ∷ []))
              ∙ bytes_of-grown older;
          keeps_files = λ g.
              Stored-next older grown_active next
                (Stored-grown older s grown_active g grown_lem.base_offset
                  (omega (arith, grown_lem.index_size, h.index_room, room)))
                (omega (arith, grown_lem.base_offset, h.healthy.counted)) (omega arith);
          unmaxed = λ u pos. fresh_segment-unmaxed (s.next_offset + 1) c u pos;
        }

    -- Append returns the next offset, whether it opens a new segment or not.
    pub append-Grown :
        (t : Log) × (append proto (running c d older s) message ≡ (t, ok s.next_offset))
        × Grown lowest c d older s message p t
    append-Grown = elim (Bool-cases (Segment.is_maxed grown_active)) [
      | inl maxed ↦ (_, append-rotates maxed, rotates-Grown)
      | inr unmaxed ↦ (_, append-stays unmaxed, stays-Grown unmaxed)
    ]
