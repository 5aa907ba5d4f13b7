-- ===== src/CommitLog/Plain.antt =====
-- A message encoding that stands in for the protobuf package's where the theorems are applied.
use distributed_systems_trai.Base.{
  ℕ, ◌^◌, ◌≤◌, ◌<◌, ◌≡◌, sym, ap, ◌∙◌, ◌&&◌, List, ◌++◌, arith, ltb, if◌then◌else◌, length, drop,
  length-append, marshal, unmarshal, Result, ok, err,
}
use distributed_systems_trai.Base.Words.{put_uint, uint, length-put_uint, uint-put_uint}
use distributed_systems_trai.Base.Slices.{slice, slice-append_head, drop-append, slice-append_right}
use distributed_systems_trai.CommitLog.Message.{Record, Codec}

-- Offset, term and type in eight, eight and four
-- bytes, and then the value.
abbrev pub encode : Record → Result (List ℕ)
encode r =
    if ltb r.offset (256 ^ 8) && (ltb r.term (256 ^ 8) && ltb r.type (256 ^ 4))
    then ok (put_uint 8 r.offset ++ (put_uint 8 r.term ++ (put_uint 4 r.type ++ r.value)))
    else err marshal

abbrev pub decode : List ℕ → Result Record
decode p =
    if ltb (length p) 20
    then err unmarshal
    else ok (record {
      value = drop 20 p;
      offset = uint (slice 0 8 p);
      term = uint (slice 8 8 p);
      type = uint (slice 16 4 p);
    })

module _ (r : Record) where
  off : List ℕ
  off = put_uint 8 r.offset

  term : List ℕ
  term = put_uint 8 r.term

  type : List ℕ
  type = put_uint 4 r.type

  whole : List ℕ
  whole = off ++ (term ++ (type ++ r.value))

  parts :
      (slice 0 8 whole ≡ off)
      × (slice 8 8 whole ≡ term)
      × (slice 16 4 whole ≡ type)
      × (drop 20 whole ≡ r.value)
      × (20 ≤ length whole)
  unfolding off term type whole
  parts =
      let eight = length-put_uint 8 r.offset in
      let eight' = length-put_uint 8 r.term in
      let four = length-put_uint 4 r.type in
      (
        slice-append_head 8 off (term ++ (type ++ r.value)) (sym eight),
        slice-append_right 8 0 8 off (term ++ (type ++ r.value)) (omega arith)
            ∙ slice-append_head 8 term (type ++ r.value) (sym eight'),
        slice-append_right 16 8 4 off (term ++ (type ++ r.value)) (omega arith)
            ∙ slice-append_right 8 0 4 term (type ++ r.value) (omega arith)
            ∙ slice-append_head 4 type r.value (sym four),
        drop-append 20 12 off (term ++ (type ++ r.value)) (omega arith)
            ∙ drop-append 12 4 term (type ++ r.value) (omega arith)
            ∙ drop-append 4 0 type r.value (omega arith),
        omega (
          arith,
          length-append off (term ++ (type ++ r.value)),
          length-append term (type ++ r.value),
          length-append type r.value,
        ),
      )

  encode-whole :
      (p : List ℕ)
      → encode r ≡ ok p
      → (p ≡ whole) × (r.offset < 256 ^ 8) × (r.term < 256 ^ 8) × (r.type < 256 ^ 4)
  unfolding off term type whole
  encode-whole p e = ground arith

  decode-whole : r.offset < 256 ^ 8 → r.term < 256 ^ 8 → r.type < 256 ^ 4 → decode whole ≡ ok r
  unfolding off term type
  decode-whole a b c = ground (
    arith,
    parts,
    ap uint parts.0,
    ap uint parts.1,
    ap uint parts.2,
    off_back a,
    term_back b,
    type_back c,
  )
    where
      off_back : r.offset < 256 ^ 8 → uint off ≡ r.offset
      off_back = uint-put_uint 8 r.offset

      term_back : r.term < 256 ^ 8 → uint term ≡ r.term
      term_back = uint-put_uint 8 r.term

      type_back : r.type < 256 ^ 4 → uint type ≡ r.type
      type_back = uint-put_uint 4 r.type

pub decode-encode : (r : Record) (p : List ℕ) → encode r ≡ ok p → decode p ≡ ok r
decode-encode r p e = let (same, a, b, c) = encode-whole r p e in rw same (decode-whole r a b c)

abbrev pub plain : Codec
plain = record { to_bytes = encode; of_bytes = decode; of_to = decode-encode }
