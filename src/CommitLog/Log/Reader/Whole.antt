-- ===== src/CommitLog/Log/Reader/Whole.antt =====
-- Reading a Reader to its end gives the bytes of all stores.
use distributed_systems_trai.Base.{
  ℕ, zero, suc, ◌+◌, ◌^◌, ◌≤◌, ◌<◌, ◌≡◌, refl, sym, ap, ◌∙◌, ◌⊎◌, inl, inr, List, [], ◌∷◌, ◌++◌,
  map, append_assoc, append-nil, arith, leb, leb→le, ℕ-cases, Bool-cases, length, take, drop, All,
  length-append, eof, Result, ok, err,
}
use distributed_systems_trai.Base.Slices.{slice, length-slice-min}
use distributed_systems_trai.CommitLog.Store.{read_at, read_some_at}
use distributed_systems_trai.CommitLog.Store.Writer.{bytes, IsHealthy, flush-flushed}
use distributed_systems_trai.CommitLog.Segment.{Segment}
use distributed_systems_trai.CommitLog.Log.{Log, segments}
use distributed_systems_trai.CommitLog.Log.Reader.{
  OriginReader, origin_read, reader, last_eof, multi_read, read_all,
}

-- The store is healthy and small, and no more was read than it has.
record IsReady (o : OriginReader) : Type 0 where
  healthy : IsHealthy o.store
  small : o.store.size < 2 ^ 62
  within : o.off ≤ length (bytes o.store)

-- What is left to be read.
abbrev left : OriginReader → List ℕ
left o = drop o.off (bytes o.store)

abbrev left_of : List OriginReader → List ℕ
left_of [] = []
left_of (o ∷ os) = left o ++ left_of os

drop_nil {ℓ} : {A : Type ℓ} (n : ℕ) → drop {A = A} n [] ≡ []
drop_nil zero = refl
drop_nil (suc n) = refl

drop-plus {ℓ} : {A : Type ℓ} (k m n : ℕ) (xs : List A) → k ≡ m + n → drop k xs ≡ drop n (drop m xs)
drop-plus k zero n xs e = ap (λ i. drop i xs) (omega arith)
drop-plus k (suc m) n [] e = drop_nil k ∙ sym (drop_nil n)
drop-plus zero (suc m) n (x ∷ xs) e = absurd (omega arith)
drop-plus (suc k) (suc m) n (x ∷ xs) e = drop-plus k m n xs (omega arith)

take-append-drop-length {ℓ} :
    {A : Type ℓ} (n : ℕ) (xs : List A) → take n xs ++ drop (length (take n xs)) xs ≡ xs
take-append-drop-length zero xs = refl
take-append-drop-length (suc n) [] = refl
take-append-drop-length (suc n) (x ∷ xs) = ap (λ l. x ∷ l) (take-append-drop-length n xs)

drop_all {ℓ} : {A : Type ℓ} (n : ℕ) (xs : List A) → length xs ≤ n → drop n xs ≡ []
drop_all zero [] h = refl
drop_all zero (x ∷ xs) h = absurd (omega arith)
drop_all (suc n) [] h = refl
drop_all (suc n) (x ∷ xs) h = drop_all n xs (omega arith)

module _ (n : ℕ) (o : OriginReader) (h : IsReady o) (positive : 0 < n) (fits : n < 2 ^ 62) where
  got : List ℕ
  got = slice o.off n (bytes o.store)

  after : OriginReader
  after = record o {
    store = record o.store { contents = bytes o.store; pending = [] };
    off = o.off + length got;
  }

  origin_read-partial : o.off + n ≤ length (bytes o.store) → origin_read n o ≡ (after, (got, ok tt))
  unfolding origin_read read_at read_some_at got after
  origin_read-partial room = ground (
    arith,
    flush-flushed o.store h.healthy.is_open h.healthy.unfailed,
    h.healthy.is_open,
    h.healthy.sized,
    h.small,
  )

  origin_read-last : length (bytes o.store) < o.off + n → origin_read n o ≡ (after, (got, err eof))
  unfolding origin_read read_at read_some_at got after
  origin_read-last past = ground (
    arith,
    flush-flushed o.store h.healthy.is_open h.healthy.unfailed,
    h.healthy.is_open,
    h.healthy.sized,
    h.small,
    h.within,
  )

  after-IsReady : IsReady after
  unfolding got after
  after-IsReady = record {
    healthy = record {
      is_open = h.healthy.is_open;
      unfailed = h.healthy.unfailed;
      sized = h.healthy.sized ∙ ap length (sym (append-nil (bytes o.store)));
    };
    small = h.small;
    within = omega (
      arith,
      length-slice-min o.off n (bytes o.store),
      ap length (append-nil (bytes o.store)),
      h.within,
    );
  }

  left-got : left o ≡ got ++ left after
  unfolding got after slice
  left-got =
      let ys = left o in
      sym (
        ap (λ l. take n ys ++ drop (o.off + length (take n ys)) l) (append-nil (bytes o.store))
        ∙ ap (λ l. take n ys ++ l)
            (drop-plus (o.off + length (take n ys)) o.off (length (take n ys)) (bytes o.store) refl)
        ∙ take-append-drop-length n ys)

  left-last : length (bytes o.store) < o.off + n → left after ≡ []
  unfolding got after
  left-last past = drop_all (o.off + length (slice o.off n (bytes o.store))) (bytes o.store ++ []) (
      omega (
        arith,
        length-slice-min o.off n (bytes o.store),
        ap length (append-nil (bytes o.store)),
        h.within,
      ))

  length-got : o.off + n ≤ length (bytes o.store) → length got ≡ n
  unfolding got
  length-got room = omega (arith, length-slice-min o.off n (bytes o.store))

-- One round: what multi_read leaves, what it has read, and that it is done with io.EOF and with
-- nothing left, or has read something.
record Round (n : ℕ) (os : List OriginReader) : Type 0 where
  rest : List OriginReader
  read : List ℕ
  result : Result (Unit {0})
  reads : multi_read n os ≡ (rest, (read, result))
  ready : All IsReady rest
  parts : left_of os ≡ read ++ left_of rest
  progress : ((result ≡ ok tt) × (0 < length read)) ⊎ ((result ≡ err eof) × (left_of rest ≡ []))

last_eof-cases :
    (os : List OriginReader) → ((last_eof os ≡ err eof) × (left_of os ≡ [])) ⊎ (last_eof os ≡ ok tt)
unfolding last_eof
last_eof-cases [] = inl (refl, refl)
last_eof-cases (o ∷ os) = inr refl

module _ (n : ℕ) (positive : 0 < n) (fits : n < 2 ^ 62) where
  partial-Round :
      (o : OriginReader) (os : List OriginReader)
      → IsReady o
      → All IsReady os
      → o.off + n ≤ length (bytes o.store)
      → Round n (o ∷ os)
  unfolding multi_read
  partial-Round o os h hs room = record {
    rest = after n o h positive fits ∷ os;
    read = got n o h positive fits;
    result = ok tt;
    reads = ground (arith, origin_read-partial n o h positive fits room);
    ready = (after-IsReady n o h positive fits, hs);
    parts =
        ap (λ l. l ++ left_of os) (left-got n o h positive fits)
        ∙ append_assoc (got n o h positive fits) (left (after n o h positive fits)) (left_of os);
    progress = inl (refl, omega (arith, length-got n o h positive fits room));
  }

  last-Round :
      (o : OriginReader) (os : List OriginReader)
      → IsReady o
      → All IsReady os
      → length (bytes o.store) < o.off + n
      → Round n os
      → Round n (o ∷ os)
  unfolding multi_read
  last-Round o os h hs past next =
      let g = got n o h positive fits in
      let reads = origin_read-last n o h positive fits past in
      let all_got : left o ≡ g =
        left-got n o h positive fits
        ∙ ap (λ l. g ++ l) (left-last n o h positive fits past)
        ∙ append-nil g in
      elim (ℕ-cases (length g)) [
        | inl nothing ↦
            let empty : g ≡ [] = length-zero g nothing in
            record {
              rest = next.rest;
              read = next.read;
              result = next.result;
              reads = ground (arith, reads, nothing, next.reads);
              ready = next.ready;
              parts = ap (λ l. l ++ left_of os) (all_got ∙ empty) ∙ next.parts;
              progress = next.progress;
            }
        | inr (m, some_bytes) ↦ record {
          rest = os;
          read = g;
          result = last_eof os;
          reads = ground (arith, reads, some_bytes);
          ready = hs;
          parts = ap (λ l. l ++ left_of os) all_got;
          progress = elim (last_eof-cases os) [
            | inl ended ↦ inr ended
            | inr going ↦ inl (going, omega (arith, some_bytes))
          ];
        }
      ]
    where
      length-zero : (xs : List ℕ) → length xs ≡ 0 → xs ≡ []
      length-zero [] e = refl
      length-zero (x ∷ xs) e = absurd (omega arith)

  multi_read-Round : (os : List OriginReader) → All IsReady os → Round n os
  unfolding multi_read
  multi_read-Round [] hs = record {
    rest = [];
    read = [];
    result = err eof;
    reads = refl;
    ready = tt;
    parts = refl;
    progress = inr (refl, refl);
  }
  multi_read-Round (o ∷ os) hs =
      let next = multi_read-Round os hs.1 in
      elim (Bool-cases (leb (o.off + n) (length (bytes o.store)))) [
        | inl room ↦ partial-Round o os hs.0 hs.1 (leb→le _ _ room)
        | inr past ↦ last-Round o os hs.0 hs.1 (ground (arith, past)) next
      ]

read_all-left :
    (fuel : ℕ) (sizes : ℕ → ℕ) (os : List OriginReader)
    → ((k : ℕ) → (0 < sizes k) × (sizes k < 2 ^ 62))
    → All IsReady os
    → length (left_of os) < fuel
    → (read_all fuel sizes os).1 ≡ (left_of os, ok tt)
unfolding read_all
read_all-left zero sizes os sized hs enough = absurd (omega arith)
read_all-left (suc fuel) sizes os sized hs enough =
    let round = multi_read-Round (sizes 0) (sized 0).0 (sized 0).1 os hs in
    elim round.progress [
      | inl (going, some_bytes) ↦
          let again =
            read_all-left fuel (λ k. sizes (suc k)) round.rest (λ k. sized (suc k)) round.ready
              (omega
                (arith, ap length round.parts, length-append round.read (left_of round.rest))) in
          ground (arith, round.reads, going, again, round.parts)
      | inr (ended, nothing) ↦
          ground (arith, round.reads, ended, round.parts, nothing, append-nil round.read)
    ]

-- The bytes of the stores of segments, one after the other.
abbrev pub bytes_of : List Segment → List ℕ
bytes_of [] = []
bytes_of (s ∷ ss) = bytes s.store ++ bytes_of ss

abbrev starts : (Segment → ℕ) → List Segment → List OriginReader
starts file_offset = map (λ s. record { store = s.store; off = 0; file_offset = file_offset s })

left_of-starts :
    (file_offset : Segment → ℕ) (ss : List Segment) → left_of (starts file_offset ss) ≡ bytes_of ss
left_of-starts file_offset [] = refl
left_of-starts file_offset (s ∷ ss) = ap (λ l. bytes s.store ++ l) (left_of-starts file_offset ss)

starts-IsReady :
    (file_offset : Segment → ℕ) (ss : List Segment)
    → All (λ (s : Segment). IsHealthy s.store × (s.store.size < 2 ^ 62)) ss
    → All IsReady (starts file_offset ss)
starts-IsReady file_offset [] h = tt
starts-IsReady file_offset (s ∷ ss) h = (
  record { healthy = h.0.0; small = h.0.1; within = omega arith },
  starts-IsReady file_offset ss h.1,
)

-- Where the store of every segment is healthy, which is open, without a failed write and with a size
-- that counts its bytes, and is below 2^62 bytes, io.ReadAll of Reader, in rounds of whatever sizes
-- that are not 0 and below 2^62, ends and returns the bytes of all stores in order, those still
-- buffered included. As many rounds as there are bytes, and one more, are enough.
pub read_all-reader :
    (l : Log) (file_offset : Segment → ℕ) (fuel : ℕ) (sizes : ℕ → ℕ)
    → All (λ (s : Segment). IsHealthy s.store × (s.store.size < 2 ^ 62)) (segments l)
    → ((k : ℕ) → (0 < sizes k) × (sizes k < 2 ^ 62))
    → length (bytes_of (segments l)) < fuel
    → (read_all fuel sizes (reader file_offset l)).1 ≡ (bytes_of (segments l), ok tt)
unfolding reader
read_all-reader l file_offset fuel sizes healthy sized enough =
    let same = left_of-starts file_offset (segments l) in
    read_all-left fuel sizes (starts file_offset (segments l)) sized
      (starts-IsReady file_offset (segments l) healthy) (omega (arith, ap length same))
    ∙ ap (λ bs. (bs, ok tt)) same
