-- ===== src/CommitLog/Store/Frames.antt =====
-- A store as a sequence of frames: what Append writes, Read finds, also after later appends.
use distributed_systems_trai.Base.{
  ℕ, ◌+◌, ◌%◌, ◌^◌, ◌≤◌, ◌<◌, ◌≡◌, refl, sym, ap, ◌∙◌, ◌⊎◌, inl, inr, true, false, List, [], ◌++◌,
  append_assoc, append-nil, arith, length, length-append, ok, ◌>>=◌, Result-cases,
}
use distributed_systems_trai.Base.Slices.{
  slice, length-slice-min, slice-append_left, slice-append_right, slice-append_self, slice_all,
}
use distributed_systems_trai.Base.Words.{put_uint, uint, length-put_uint, uint-put_uint}
use distributed_systems_trai.CommitLog.Store.{
  Store, append, read_file_at, make_len, read, close, new_store,
}
use distributed_systems_trai.CommitLog.Store.Writer.{
  bytes, IsHealthy, flush-flushed, buf_write-Writes,
}

-- The bytes of one record.
abbrev pub frame : List ℕ → List ℕ
frame p = put_uint 8 (length p) ++ p

-- The record `p` stands at `pos`: its length in eight bytes, and then its bytes.
pub record FrameAt (xs : List ℕ) (pos : ℕ) (p : List ℕ) : Type 0 where
  pub fits : pos + 8 + length p ≤ length xs
  pub header : uint (slice pos 8 xs) ≡ length p
  pub body : slice (pos + 8) (length p) xs ≡ p

-- `t` is `s` with the record `p` appended.
pub record Appended (s : Store) (p : List ℕ) (t : Store) : Type 0 where
  pub healthy : IsHealthy t
  pub grown : bytes t ≡ bytes s ++ frame p
  pub size : t.size ≡ s.size + (length p + 8)

length-frame : (p : List ℕ) → length (frame p) ≡ length p + 8
length-frame p =
    omega (arith, length-append (put_uint 8 (length p)) p, length-put_uint 8 (length p))

pub append-Appended :
    (s : Store) (p : List ℕ)
    → IsHealthy s
    → s.size + (length p + 8) < 2 ^ 64
    → (t : Store) × (append s p ≡ (t, ok (length p + 8, s.size))) × Appended s p t
unfolding append
append-Appended s p h room =
    let (s₁, e₁, w₁) = buf_write-Writes s (put_uint 8 (length p)) h.is_open h.unfailed in
    let (s₂, e₂, w₂) = buf_write-Writes s₁ p w₁.is_open w₁.unfailed in
    (
      record s₂ { size = s.size + (length p + 8) },
      ground (arith, flush-flushed s h.is_open h.unfailed, e₁, e₂, w₁.same_size, w₂.same_size),
      record {
        healthy = record {
          is_open = w₂.is_open;
          unfailed = w₂.unfailed;
          sized = omega (
            arith,
            h.sized,
            ap length w₂.wrote,
            ap length w₁.wrote,
            length-append (bytes s₁) p,
            length-append (bytes s) (put_uint 8 (length p)),
            length-put_uint 8 (length p),
          );
        };
        grown =
            w₂.wrote ∙ ap (λ l. l ++ p) w₁.wrote ∙ append_assoc (bytes s) (put_uint 8 (length p)) p;
        size = refl;
      },
    )

-- A frame stays where it is while bytes are added behind it.
pub FrameAt-append :
    (xs ys : List ℕ) (pos : ℕ) (p : List ℕ) → FrameAt xs pos p → FrameAt (xs ++ ys) pos p
FrameAt-append xs ys pos p f = record {
  fits = omega (arith, length-append xs ys, f.fits);
  header = ap uint (slice-append_left pos 8 xs ys (omega (arith, f.fits))) ∙ f.header;
  body = slice-append_left (pos + 8) (length p) xs ys f.fits ∙ f.body;
}

pub FrameAt-frame : (xs p : List ℕ) → length p < 2 ^ 64 → FrameAt (xs ++ frame p) (length xs) p
FrameAt-frame xs p small = record {
  fits = omega (arith, length-append xs (frame p), length-frame p);
  header =
      ap uint (
        slice-append_right (length xs) 0 8 xs (frame p) (omega arith)
        ∙ ap (λ n. slice 0 n (frame p)) (sym (length-put_uint 8 (length p)))
        ∙ slice-append_self (put_uint 8 (length p)) p)
      ∙ uint-put_uint 8 (length p) small;
  body =
      slice-append_right (length xs + 8) 8 (length p) xs (frame p) (omega arith)
      ∙ slice-append_right 8 0 (length p) (put_uint 8 (length p)) p
          (omega (arith, length-put_uint 8 (length p)))
      ∙ slice_all p;
}

-- A frame from its parts, as Read finds them; an empty record needs no bytes behind its length.
FrameAt-parts :
    (xs p : List ℕ) (pos n : ℕ)
    → pos + 8 ≤ length xs
    → n ≡ uint (slice pos 8 xs)
    → p ≡ slice (pos + 8) n xs
    → (n ≡ 0 ⊎ pos + 8 + n ≤ length xs)
    → FrameAt xs pos p
FrameAt-parts xs p pos n room counted at_body within =
    let whole : length p ≡ n = omega (arith, ap length at_body, length-slice-min (pos + 8) n xs) in
    record {
      fits = omega arith;
      header = sym counted ∙ sym whole;
      body = ap (λ m. slice (pos + 8) m xs) whole ∙ sym at_body;
    }

module _ (s : Store) (is_open : s.is_open ≡ true) (small : length s.contents < 2 ^ 63) where
  read_file_at-slice :
      (n off : ℕ) → off + n ≤ length s.contents → read_file_at s n off ≡ ok (slice off n s.contents)
  unfolding read_file_at
  read_file_at-slice n off fits = ground arith

  read_file_at_inversion :
      (n off : ℕ) (p : List ℕ)
      → read_file_at s n off ≡ ok p
      → (p ≡ slice off n s.contents) × (n ≡ 0 ⊎ off + n ≤ length s.contents)
  unfolding read_file_at
  read_file_at_inversion n off p e = ground arith

make_len-fits : (n : ℕ) → n < 2 ^ 63 → make_len n ≡ ok n
unfolding make_len
make_len-fits n small = ground arith

make_len_inversion : (n m : ℕ) → make_len n ≡ ok m → m ≡ n
unfolding make_len
make_len_inversion n m e = ground arith

module _ (s : Store) (pos : ℕ) (h : IsHealthy s) (small : s.size < 2 ^ 63) where
  abbrev flushed : Store
  flushed = record s { contents = bytes s; pending = [] }

  -- Reading flushes the buffer and changes nothing else.
  pub read-state : (read s pos).0 ≡ flushed
  unfolding read
  read-state = ground (arith, flush-flushed s h.is_open h.unfailed)

  read-flushed : (read s pos).1 ≡ (
      read_file_at flushed 8 pos >>= λ size.
      make_len (uint size) >>= λ n. read_file_at flushed n ((pos + 8) % 2 ^ 64))
  unfolding read
  read-flushed = ground (arith, flush-flushed s h.is_open h.unfailed)

  pub read-FrameAt : (p : List ℕ) → (read s pos).1 ≡ ok p → FrameAt (bytes s) pos p
  read-FrameAt p e = elim (Result-cases (read_file_at flushed 8 pos)) [
    | inr (bad, e₁) ↦ cc (e, e₁, read-flushed)
    | inl (head, e₁) ↦ elim (Result-cases (make_len (uint head))) [
      | inr (bad, refused) ↦ cc (e, e₁, refused, read-flushed)
      | inl (n, made) ↦
          let e₂ : read_file_at flushed n ((pos + 8) % 2 ^ 64) ≡ ok p =
            cc (read-flushed, e₁, made, e) in
          let (at_head, inside) =
            read_file_at_inversion flushed h.is_open (omega (arith, h.sized)) 8 pos head e₁ in
          let next : (pos + 8) % 2 ^ 64 ≡ pos + 8 = omega (arith, inside, h.sized) in
          let (at_body, within) =
            read_file_at_inversion flushed h.is_open (omega (arith, h.sized)) n ((pos + 8) % 2 ^ 64)
              p e₂ in
          FrameAt-parts (bytes s) p pos n (omega arith)
            (make_len_inversion (uint head) n made ∙ ap uint at_head) (rw next at at_body)
            (rw next at within)
    ]
  ]

  pub FrameAt-read : (p : List ℕ) → FrameAt (bytes s) pos p → (read s pos).1 ≡ ok p
  FrameAt-read p f =
      let e₁ =
        read_file_at-slice flushed h.is_open (omega (arith, h.sized)) 8 pos
          (omega (arith, f.fits)) in
      let e₂ =
        read_file_at-slice flushed h.is_open (omega (arith, h.sized)) (length p) (pos + 8)
          (f.fits) in
      let inside : (pos + 8) % 2 ^ 64 ≡ pos + 8 = omega (arith, f.fits, h.sized) in
      let made = make_len-fits (length p) (omega (arith, f.fits, h.sized)) in
      rw (read-flushed, e₁) (rw (f.header, inside) (rw made (rw e₂ (ap ok f.body))))

-- Appending to a healthy store succeeds and returns the number of bytes and the position, from
-- which Read then returns the record; the store stays healthy. `size` may not pass 2^63.
pub read-append :
    (s : Store) (p : List ℕ)
    → IsHealthy s
    → s.size + (length p + 8) < 2 ^ 63
    → ((append s p).1 ≡ ok (length p + 8, s.size))
      × ((read (append s p).0 s.size).1 ≡ ok p)
      × IsHealthy (append s p).0
read-append s p h room =
    let (t, e, a) = append-Appended s p h (omega arith) in
    let at_end = FrameAt-frame (bytes s) p (omega arith) in
    rw e (
      refl,
      FrameAt-read t s.size a.healthy (omega (arith, a.size)) p (rw (a.grown, h.sized) at_end),
      a.healthy,
    )

-- What could be read before an append to a healthy store can still be read after it, at the same
-- position, as long as `size` does not pass 2^63.
pub read-append_old :
    (s : Store) (p : List ℕ) (pos : ℕ) (q : List ℕ)
    → IsHealthy s
    → s.size + (length p + 8) < 2 ^ 63
    → (read s pos).1 ≡ ok q
    → (read (append s p).0 pos).1 ≡ ok q
read-append_old s p pos q h room e =
    let (t, appends, a) = append-Appended s p h (omega arith) in
    let before = read-FrameAt s pos h (omega arith) q e in
    rw appends (
      FrameAt-read t pos a.healthy (omega (arith, a.size)) q
        (rw a.grown (FrameAt-append (bytes s) (frame p) pos q before)))

-- What a successful close leaves.
abbrev pub closed_store : Store → Store
closed_store s = record s { contents = bytes s; pending = []; is_open = false }

pub close-closed : (s : Store) → IsHealthy s → close s ≡ (closed_store s, ok tt)
unfolding close
close-closed s h = ground (arith, flush-flushed s h.is_open h.unfailed, h.is_open)

pub new_store-IsHealthy : (xs : List ℕ) → IsHealthy (new_store xs)
unfolding new_store
new_store-IsHealthy xs = record {
  is_open = refl;
  unfailed = refl;
  sized = ap length (sym (append-nil xs));
}

pub bytes-new_store : (xs : List ℕ) → bytes (new_store xs) ≡ xs
unfolding new_store
bytes-new_store xs = append-nil xs

pub size-new_store : (xs : List ℕ) → (new_store xs).size ≡ length xs
unfolding new_store
size-new_store xs = refl

read_file_at-same :
    (s t : Store) (n off : ℕ)
    → s.is_open ≡ true
    → t.is_open ≡ true
    → s.contents ≡ t.contents
    → read_file_at s n off ≡ read_file_at t n off
unfolding read_file_at
read_file_at-same s t n off open_s open_t same = rw (open_s, open_t, same) refl

-- A new store over all bytes of a healthy one reads the same at every position, errors included.
pub read-new_store :
    (s : Store) (pos : ℕ) → IsHealthy s → (read (new_store (bytes s)) pos).1 ≡ (read s pos).1
unfolding read new_store
read-new_store s pos h =
    let t = new_store (bytes s) in
    let s' = record s { contents = bytes s; pending = [] } in
    let t' = record t { contents = bytes t; pending = [] } in
    let same = λ (n off : ℕ). read_file_at-same t' s' n off refl h.is_open (append-nil (bytes s)) in
    ground (arith, flush-flushed s h.is_open h.unfailed, flush-flushed t refl refl, same)

-- Closing a healthy store writes all its bytes to the file: a store over the closed file is
-- healthy and reads what the old one read.
pub read-reopen :
    (s : Store) (pos : ℕ) (q : List ℕ)
    → IsHealthy s
    → s.size < 2 ^ 63
    → (read s pos).1 ≡ ok q
    → ((close s).1 ≡ ok tt)
      × IsHealthy (new_store (close s).0.contents)
      × ((read (new_store (close s).0.contents) pos).1 ≡ ok q)
read-reopen s pos q h small e =
    let before = read-FrameAt s pos h small q e in
    let t = new_store (bytes s) in
    rw (close-closed s h) (
      refl,
      new_store-IsHealthy (bytes s),
      FrameAt-read t pos (new_store-IsHealthy (bytes s))
          (omega (arith, h.sized, size-new_store (bytes s))) q
          (rw (bytes-new_store (bytes s)) before),
    )
