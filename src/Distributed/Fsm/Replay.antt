-- ===== src/Distributed/Fsm/Replay.antt =====
-- The loop of Restore on whole snapshots.
use distributed_systems_trai.Base.{
  ℕ, zero, suc, ◌+◌, ◌^◌, ◌≤◌, ◌<◌, ◌≡◌, refl, sym, ap, ◌∙◌, ◌≢◌, inl, inr, Bool, false, List, [],
  ◌∷◌, ◌++◌, append_assoc, arith, ℕ-cases, length, take, drop, All, length-append, length-drop,
  Error, Result, ok, err, Result-cases, and_then,
}
use distributed_systems_trai.Base.Slices.{slice, slice-append_head, drop-append}
use distributed_systems_trai.Base.Words.{put_uint, uint, length-put_uint, uint-put_uint}
use distributed_systems_trai.CommitLog.Store.Frames.{frame}
use distributed_systems_trai.CommitLog.Message.{Record, Codec}
use distributed_systems_trai.CommitLog.Segment.{Segment}
use distributed_systems_trai.CommitLog.Log.{Log, segments}
use distributed_systems_trai.CommitLog.Log.Operations.{append}
use distributed_systems_trai.CommitLog.Log.Reader.{reader, read_all}
use distributed_systems_trai.CommitLog.Log.Reader.Whole.{bytes_of, read_all-reader}
use distributed_systems_trai.CommitLog.Store.Writer.{IsHealthy}
use distributed_systems_trai.Distributed.Fsm.{next_frame, reset_at, restore_one, restore_loop}

-- A frame takes its length's eight bytes at least.
next_frame-shorter :
    (xs p rest : List ℕ) → next_frame xs ≡ ok (p, rest) → length rest + 8 ≤ length xs
unfolding next_frame
next_frame-shorter xs p rest h =
    ground (arith, length-drop 8 xs, length-drop (uint (take 8 xs)) (drop 8 xs))

next_frame-nil : (p rest : List ℕ) → next_frame [] ≢ ok (p, rest)
unfolding next_frame
next_frame-nil p rest h = cc h

next_frame-parts :
    (xs tail : List ℕ) (n : ℕ)
    → uint (take 8 xs) ≡ n
    → drop 8 xs ≡ tail
    → n < 2 ^ 63
    → n ≤ length tail
    → 8 ≤ length xs
    → next_frame xs ≡ ok (take n tail, drop n tail)
unfolding next_frame
next_frame-parts xs tail n counted behind small within long = ground (arith, counted, behind)

next_frame-frame :
    (p rest : List ℕ) → length p < 2 ^ 63 → next_frame (frame p ++ rest) ≡ ok (p, rest)
unfolding slice
next_frame-frame p rest small =
    let n = length p in
    let head = put_uint 8 n in
    let eight = length-put_uint 8 n in
    let whole = append_assoc head p rest in
    let counted : uint (take 8 (frame p ++ rest)) ≡ n =
      ap (λ l. uint (take 8 l)) whole
      ∙ ap uint (slice-append_head 8 head (p ++ rest) (sym eight))
      ∙ uint-put_uint 8 n (omega arith) in
    let behind : drop 8 (frame p ++ rest) ≡ p ++ rest =
      ap (drop 8) whole ∙ drop-append 8 0 head (p ++ rest) (omega (arith, eight)) in
    next_frame-parts (frame p ++ rest) (p ++ rest) n counted behind small
      (omega (arith, length-append p rest))
      (omega (arith, ap length whole, length-append head (p ++ rest), eight))
    ∙ ap ok (cc (slice-append_head n p rest refl, drop-append n 0 p rest (omega arith)))

-- The bytes of records, one frame after the other.
abbrev pub frames : List (List ℕ) → List ℕ
frames [] = []
frames (p ∷ ps) = frame p ++ frames ps

module _ (proto : Codec) where
  restore_one_rest :
      (first : Bool) (l : Log) (p rest rest' : List ℕ)
      → (restore_one proto first l (p, rest)).1 ≡ ok rest'
      → rest' ≡ rest
  unfolding restore_one
  restore_one_rest first l p rest rest' h = elim (Result-cases (proto.of_bytes p)) [
    | inr (e, bad) ↦ ground (arith, bad)
    | inl (r, decoded) ↦ elim (Result-cases (reset_at first l r.offset).1) [
      | inr (e, bad) ↦ ground (arith, decoded, bad)
      | inl (u, done) ↦ elim (Result-cases (append proto (reset_at first l r.offset).0 r).1) [
        | inr (e, bad) ↦ ground (arith, decoded, done, bad)
        | inl (off, appended) ↦ ground (arith, decoded, done, appended)
      ]
    ]
  ]

  restore_loop-nil :
      (fuel : ℕ) (first : Bool) (l : Log) → restore_loop proto fuel first l [] ≡ (l, ok tt)
  unfolding restore_loop
  restore_loop-nil zero first l = refl
  restore_loop-nil (suc fuel) first l = refl

  restore_loop-frame :
      (fuel : ℕ) (first : Bool) (l : Log) (x : ℕ) (xs p rest : List ℕ)
      → next_frame (x ∷ xs) ≡ ok (p, rest)
      → restore_loop proto (suc fuel) first l (x ∷ xs)
        ≡ and_then
            (restore_one proto first l (p, rest))
            (λ rest' l'. restore_loop proto fuel false l' rest')
  unfolding restore_loop
  restore_loop-frame fuel first l x xs p rest h = ground (arith, h)

  restore_loop_next :
      (fuel : ℕ) (first : Bool) (l : Log) (xs p rest : List ℕ)
      → next_frame xs ≡ ok (p, rest)
      → restore_loop proto (suc fuel) first l xs
        ≡ and_then
            (restore_one proto first l (p, rest))
            (λ rest' l'. restore_loop proto fuel false l' rest')
  restore_loop_next fuel first l [] p rest h = absurd (next_frame-nil p rest h)
  restore_loop_next fuel first l (x ∷ xs) p rest h = restore_loop-frame fuel first l x xs p rest h

  restore_loop-no_frame :
      (fuel : ℕ) (first : Bool) (l : Log) (x : ℕ) (xs : List ℕ) (e : Error)
      → next_frame (x ∷ xs) ≡ err e
      → restore_loop proto (suc fuel) first l (x ∷ xs) ≡ (l, err e)
  unfolding restore_loop
  restore_loop-no_frame fuel first l x xs e h = ground (arith, h)

  -- The loop of Restore ends on every snapshot: with as many rounds as the snapshot has bytes, or more,
  -- its result is the same, so none of these runs out of rounds.
  pub restore_loop_fuel :
      (fuel more : ℕ) (first : Bool) (l : Log) (xs : List ℕ)
      → length xs ≤ fuel
      → length xs ≤ more
      → restore_loop proto fuel first l xs ≡ restore_loop proto more first l xs
  restore_loop_fuel fuel more first l [] enough enough' =
      restore_loop-nil fuel first l ∙ sym (restore_loop-nil more first l)
  restore_loop_fuel zero more first l (x ∷ xs) enough enough' = absurd (omega arith)
  restore_loop_fuel (suc fuel) zero first l (x ∷ xs) enough enough' = absurd (omega arith)
  restore_loop_fuel (suc fuel) (suc more) first l (x ∷ xs) enough enough' =
      elim (Result-cases (next_frame (x ∷ xs))) [
        | inr (e, bad) ↦
            restore_loop-no_frame fuel first l x xs e bad
            ∙ sym (restore_loop-no_frame more first l x xs e bad)
        | inl ((p, rest), whole) ↦
            let shorter = next_frame-shorter (x ∷ xs) p rest whole in
            restore_loop-frame fuel first l x xs p rest whole
            ∙ next_round p rest
                (λ l'. restore_loop_fuel fuel more false l' rest (omega arith) (omega arith))
            ∙ sym (restore_loop-frame more first l x xs p rest whole)
      ]
    where
      next_round :
          (p rest : List ℕ)
          → ((l' : Log)
              → restore_loop proto fuel false l' rest ≡ restore_loop proto more false l' rest)
          → and_then
              (restore_one proto first l (p, rest))
              (λ rest' l'. restore_loop proto fuel false l' rest')
            ≡ and_then
                (restore_one proto first l (p, rest))
                (λ rest' l'. restore_loop proto more false l' rest')
      next_round p rest again = elim (Result-cases (restore_one proto first l (p, rest)).1) [
        | inr (e, bad) ↦ ground (arith, bad)
        | inl (rest', going) ↦
            let same = restore_one_rest first l p rest rest' going in
            ground (arith, going, same, again (restore_one proto first l (p, rest)).0)
      ]

  -- Appending the records one after the other.
  unfoldable pub append_records : Log → List Record → Log × Result (Unit {0})
  append_records l [] = (l, ok tt)
  append_records l (r ∷ rs) = and_then (append proto l r) λ off l'. append_records l' rs

  -- The encoded records that the payloads stand for.
  abbrev pub Decodes : List (List ℕ) → List Record → Type 0
  Decodes [] [] = Unit {0}
  Decodes [] (r ∷ rs) = ⊥
  Decodes (p ∷ ps) [] = ⊥
  Decodes (p ∷ ps) (r ∷ rs) = (proto.of_bytes p ≡ ok r) × (length p < 2 ^ 63) × Decodes ps rs

  restore_one-append :
      (l : Log) (p rest : List ℕ) (r : Record)
      → proto.of_bytes p ≡ ok r
      → restore_one proto false l (p, rest) ≡ and_then (append proto l r) (λ off l'. (l', ok rest))
  unfolding restore_one reset_at
  restore_one-append l p rest r decoded = ground (arith, decoded)

  -- Behind the first record, the loop of Restore on a snapshot of frames appends the records that the
  -- frames stand for, in order, until one cannot be appended.
  pub restore_loop-frames :
      (fuel : ℕ) (l : Log) (ps : List (List ℕ)) (rs : List Record)
      → Decodes ps rs
      → length (frames ps) ≤ fuel
      → restore_loop proto fuel false l (frames ps) ≡ append_records l rs
  unfolding append_records
  restore_loop-frames fuel l [] [] h enough = restore_loop-nil fuel false l
  restore_loop-frames fuel l [] (r ∷ rs) h enough = absurd h
  restore_loop-frames fuel l (p ∷ ps) [] h enough = absurd h
  restore_loop-frames fuel l (p ∷ ps) (r ∷ rs) h enough = elim (ℕ-cases fuel) [
    | inl none' ↦ absurd (omega (arith, none', enough, longer p (frames ps)))
    | inr (fuel', more) ↦
        let (decoded, small, others) = h in
        let next = next_frame-frame p (frames ps) small in
        rw more (
          restore_loop_next fuel' false l (frame p ++ frames ps) p (frames ps) next
          ∙ ap (λ x. and_then x (λ rest' l'. restore_loop proto fuel' false l' rest'))
              (restore_one-append l p (frames ps) r decoded)
          ∙ appended fuel' l r (λ l'.
            restore_loop-frames fuel' l' ps rs others
              (omega (arith, more, enough, longer p (frames ps)))))
  ]
    where
      longer : (p ys : List ℕ) → length ys + 8 ≤ length (frame p ++ ys)
      longer p ys = omega (
        arith,
        length-append (frame p) ys,
        length-append (put_uint 8 (length p)) p,
        length-put_uint 8 (length p),
      )

      appended :
          (fuel : ℕ) (l : Log) (r : Record)
          → ((l' : Log) → restore_loop proto fuel false l' (frames ps) ≡ append_records l' rs)
          → and_then
              (and_then (append proto l r) (λ off l'. (l', ok (frames ps))))
              (λ rest' l'. restore_loop proto fuel false l' rest')
            ≡ and_then (append proto l r) (λ off l'. append_records l' rs)
      appended fuel l r again = elim (Result-cases (append proto l r).1) [
        | inr (e, bad) ↦ ground (arith, bad)
        | inl (off, good) ↦ ground (arith, good, again (append proto l r).0)
      ]

  -- Where the stores of a log are open, without a failed write and below 2^62 bytes, and hold the
  -- frames of some records, the bytes that io.ReadAll gets from Reader make the loop of Restore, in
  -- its rounds behind the first, which does not reset the log, append those records.
  pub restore_loop-read_all :
      (l target : Log) (file_offset : Segment → ℕ) (fuel : ℕ) (sizes : ℕ → ℕ) (ps : List (List ℕ))
      (rs : List Record)
      → All (λ (s : Segment). IsHealthy s.store × (s.store.size < 2 ^ 62)) (segments l)
      → ((k : ℕ) → (0 < sizes k) × (sizes k < 2 ^ 62))
      → length (bytes_of (segments l)) < fuel
      → bytes_of (segments l) ≡ frames ps
      → Decodes ps rs
      → ((read_all fuel sizes (reader file_offset l)).1.1 ≡ ok tt)
        × (restore_loop proto fuel false target (read_all fuel sizes (reader file_offset l)).1.0
            ≡ append_records target rs)
  restore_loop-read_all l target file_offset fuel sizes ps rs healthy sized enough framed decodes =
      let whole = read_all-reader l file_offset fuel sizes healthy sized enough in
      rw whole (
        refl,
        ap (restore_loop proto fuel false target) framed
            ∙ restore_loop-frames fuel target ps rs decodes (omega (arith, ap length framed)),
      )
