-- ===== src/CommitLog/Log/Refinement/Steps.antt =====
-- Single calls on a log that stands for a list of records.
use distributed_systems_trai.Base.{
  ℕ, ◌+◌, ◌-◌, ◌^◌, ◌<◌, ◌≡◌, refl, ap, ◌∙◌, subst, ◌⊎◌, inl, inr, false, List, [], ◌∷◌, ◌++◌,
  arith, ltb, ltb→lt, ltb→ge, Bool-cases, Option-cases, length, length-append, ok, and_then,
}
use distributed_systems_trai.Base.{get_elem?, get_elem?-none, get_elem?-snoc}
use distributed_systems_trai.CommitLog.Store.Frames
use distributed_systems_trai.CommitLog.Index.Reopening as IndexReopening
use distributed_systems_trai.CommitLog.Message.{Record, Codec}
use distributed_systems_trai.CommitLog.Segment
use distributed_systems_trai.CommitLog.Segment.{Segment, Config}
use distributed_systems_trai.CommitLog.Segment.Reads.{HasRoom}
use distributed_systems_trai.CommitLog.Segment.Reopen.{reopened}
use distributed_systems_trai.CommitLog.Log.{Log, new_log}
use distributed_systems_trai.CommitLog.Log.Operations.{append, read, close}
use distributed_systems_trai.CommitLog.Log.Invariant.{running}
use distributed_systems_trai.CommitLog.Log.Growth
use distributed_systems_trai.CommitLog.Log.Growth.{HoldsIn}
use distributed_systems_trai.CommitLog.Log.Lookup
use distributed_systems_trai.CommitLog.Log.Capacity.{index_room}
use distributed_systems_trai.CommitLog.Log.Reopening.{
  closed_files, close-closed_log, opened_again, new_log-reopened,
}
use distributed_systems_trai.CommitLog.Log.Rereading.{
  flushed_segment, read-Left, Left-IsSound, Left-Reread, Stored-Reread, HoldsIn-Reread,
}
use distributed_systems_trai.CommitLog.Log.Durability.{
  IsStored, IsHealthy-All, reopened-IsSound, Stored-reopened, Stored-fits, HoldsIn-reopened,
  opened_again-snoc, Chain-IsHealthy,
}
use distributed_systems_trai.CommitLog.Log.Refinement.{
  Call, append_record, read_record, reopen, appended, found, opened, spec_read, spec_one, IsRegular,
  call, Marshals, Represents,
}

module _ (proto : Codec) (c : Config) where
  unmaxed-store :
      (s : Segment) → s.config ≡ c → Segment.is_maxed s ≡ false → s.store.size < c.max_store_bytes
  unfolding Segment.is_maxed
  unmaxed-store s same unmaxed = ground (arith, ap (λ (k : Config). k.max_store_bytes) same)

  is_maxed-reopened :
      (s : Segment)
      → s.config ≡ c
      → s.store.size ≡ length (s.store.contents ++ s.store.pending)
      → Segment.is_maxed (reopened s c) ≡ Segment.is_maxed s
  unfolding Segment.is_maxed
  is_maxed-reopened s same sized = ground (
    arith,
    same,
    sized,
    Frames.size-new_store (s.store.contents ++ s.store.pending),
    IndexReopening.length-resize s.index.size s.index.mmap,
  )

  HoldsIn-last :
      (lowest : ℕ) (ss : List Segment) (off i n : ℕ) (r x : Record)
      → off ≡ lowest + n
      → i ≡ n
      → record r { offset = lowest + n } ≡ x
      → HoldsIn proto ss off (record r { offset = off })
      → HoldsIn proto ss (lowest + i) x
  HoldsIn-last lowest ss off i n r x at_off at_i same h = rw at_i (
      subst (HoldsIn proto ss (lowest + n)) same
        (subst (λ o. HoldsIn proto ss o (record r { offset = o })) at_off h))

  flushed-is_maxed :
      (s t : Segment)
      → (t ≡ s) ⊎ (t ≡ flushed_segment s)
      → (Segment.is_maxed t ≡ Segment.is_maxed s) × (t.next_offset ≡ s.next_offset)
  unfolding Segment.is_maxed
  flushed-is_maxed s t (inl same) = rw same (refl, refl)
  flushed-is_maxed s t (inr changed) = rw changed (refl, refl)

  module _ (regular : IsRegular c) {lowest : ℕ} {rs : List Record} {l : Log}
      (g : Represents proto c lowest rs l) where
    pub append-Represents :
        (r : Record)
        → Marshals proto c (append_record r)
        → lowest + length rs + 1 < 2 ^ 64
        → ((append proto l r).1 ≡ ok (lowest + length rs))
          × Represents proto c lowest
              (rs ++ (record r { offset = lowest + length rs } ∷ []))
              (append proto l r).0
    append-Represents r marshals below =
        let s = g.active in
        let h = g.sound in
        let (p, encoded, short) = marshals s.next_offset h.healthy.bounded in
        let limit =
          index_room s c.max_index_bytes (ap (λ (k : Config). k.max_index_bytes) h.configured)
            regular.whole h.healthy.index.whole g.unmaxed in
        let room : HasRoom s (length p) = (
          omega (arith, limit, h.index_room),
          omega (arith, unmaxed-store s h.configured g.unmaxed, regular.store_small, short),
          omega (arith, g.next),
        ) in
        let (t, e, grown) =
          Growth.append-Grown proto lowest c g.directory g.older s r p h encoded room in
        let done : append proto l r ≡ (t, ok s.next_offset) =
          ap (λ x. append proto x r) g.is_running ∙ e in
        rw done (
          ap ok g.next,
          record {
            directory = grown.directory;
            older = grown.older';
            active = grown.active';
            is_running = grown.is_running;
            sound = grown.sound;
            files = grown.keeps_files g.files;
            unmaxed = grown.unmaxed h.usable regular.store_positive;
            next = omega (
              arith,
              grown.next_offset,
              g.next,
              length-append rs (record r { offset = lowest + length rs } ∷ []),
            );
            contents = λ i x at_i.
                elim (get_elem?-snoc rs (record r { offset = lowest + length rs }) x i at_i) [
                  | inl before ↦ grown.keeps (lowest + i) x (g.contents i x before)
                  | inr (last, same) ↦
                      HoldsIn-last lowest _ s.next_offset i (length rs) r x g.next last (cc same)
                        grown.holds
                ];
          },
        )

    read_kept :
        (off : ℕ)
        → Represents proto c lowest rs (read proto (running c g.directory g.older g.active) off).0
    read_kept off =
        let f = read-Left proto lowest c g.directory g.older g.active off g.sound in
        let reread = Left-Reread proto g.sound f in
        let (same_maxed, same_next) = flushed-is_maxed g.active f.active' f.active in
        record {
          directory = g.directory;
          older = f.older';
          active = f.active';
          is_running = f.is_running;
          sound = Left-IsSound proto g.sound f;
          files = Stored-Reread reread g.files;
          unmaxed = same_maxed ∙ g.unmaxed;
          next = same_next ∙ g.next;
          contents = λ i r at_i. HoldsIn-Reread proto (lowest + i) r reread (g.contents i r at_i);
        }

    read_answer :
        (off : ℕ)
        → (read proto (running c g.directory g.older g.active) off).1 ≡ spec_read lowest rs off
    unfolding spec_read
    read_answer off = elim (Bool-cases (ltb off lowest)) [
      | inl below ↦ rw below (
          ap (λ x. x.1)
            (Lookup.read_outside proto lowest c g.directory g.older g.active g.sound off
              (inl (ltb→lt _ _ below))))
      | inr from ↦ elim (Option-cases (get_elem? rs (off - lowest))) [
        | inl past ↦
            let beyond = get_elem?-none rs (off - lowest) past in
            rw (from, past)
              (ap (λ x. x.1)
                (Lookup.read_outside proto lowest c g.directory g.older g.active g.sound off
                  (inr (omega (arith, g.next, beyond, ltb→ge _ _ from)))))
        | inr (r, there) ↦
            let whole : lowest + (off - lowest) ≡ off = omega (arith, ltb→ge _ _ from) in
            rw (from, there)
              (Lookup.HoldsIn-read proto lowest c g.directory g.older g.active g.sound off r (
                subst (λ o. HoldsIn proto (g.older ++ (g.active ∷ [])) o r) whole
                  (g.contents (off - lowest) r there)))
      ]
    ]

    pub read-Represents :
        (off : ℕ)
        → ((read proto l off).1 ≡ spec_read lowest rs off)
          × Represents proto c lowest rs (read proto l off).0
    read-Represents off = rw g.is_running (read_answer off, read_kept off)

    reopened_all : and_then (close l) (λ _ l₁. new_log l₁.directory c) ≡ (
      running c
          (closed_files (g.older ++ (g.active ∷ [])))
          (opened_again c g.sound.usable g.older)
          (reopened g.active c),
      ok tt,
    )
    reopened_all =
        let h = g.sound in
        let healthy = IsHealthy-All lowest c g.directory g.older g.active h g.files in
        ap (λ x. and_then (close x) (λ _ l₁. new_log l₁.directory c)) g.is_running
        ∙ ap (λ x. and_then x (λ _ l₁. new_log l₁.directory c))
            (close-closed_log c g.directory g.older g.active (Chain-IsHealthy h.chain) h.healthy
              g.files)
        ∙ new_log-reopened c h.usable g.older g.active healthy g.files regular.store_positive

    pub reopen-Represents :
        ((and_then (close l) (λ _ l₁. new_log l₁.directory c)).1 ≡ ok tt)
        × Represents proto c lowest rs (and_then (close l) (λ _ l₁. new_log l₁.directory c)).0
    reopen-Represents =
        let h = g.sound in
        let u = h.usable in
        let s = g.active in
        let healthy = IsHealthy-All lowest c g.directory g.older s h g.files in
        let snoc = opened_again-snoc c u g.older s in
        rw reopened_all (
          refl,
          record {
            directory = closed_files (g.older ++ (s ∷ []));
            older = opened_again c u g.older;
            active = reopened s c;
            is_running = refl;
            sound = reopened-IsSound lowest c g.directory g.older s h g.files;
            files =
                subst (IsStored c (closed_files (g.older ++ (s ∷ [])))) snoc
                  (Stored-reopened c u g.files);
            unmaxed = is_maxed-reopened s h.configured h.healthy.store.sized ∙ g.unmaxed;
            next = g.next;
            contents = λ i r at_i.
                subst (λ ss. HoldsIn proto ss (lowest + i) r) snoc
                  (HoldsIn-reopened c u proto (g.older ++ (s ∷ [])) (lowest + i) r healthy
                    (Stored-fits g.files) (g.contents i r at_i));
          },
        )

    -- A call gives the answer that the list gives.
    pub call-Represents :
        (k : Call)
        → Marshals proto c k
        → lowest + length rs + 1 < 2 ^ 64
        → ((call proto c l k).1 ≡ (spec_one lowest rs k).1)
          × Represents proto c lowest (spec_one lowest rs k).0 (call proto c l k).0
    unfolding call spec_one
    call-Represents (append_record r) marshals below =
        let (answer, state) = append-Represents r marshals below in (ap appended answer, state)
    call-Represents (read_record off) marshals below =
        let (answer, state) = read-Represents off in (ap found answer, state)
    call-Represents reopen marshals below =
        let (answer, state) = reopen-Represents in (ap opened answer, state)
