-- ===== src/RaftPebble/Keys.antt =====
-- The keys of internal/raftpebble/store.go and their order.
use distributed_systems_trai.Base.{
  ℕ, zero, suc, ◌+◌, ◌*◌, ◌/◌, ◌%◌, ◌^◌, ◌<◌, ◌≡◌, sym, ap, ◌∙◌, ◌≢◌, inl, inr, Bool, true, false,
  List, [], ◌∷◌, ◌++◌, arith, ltb, if◌then◌else◌, ltb→lt, Bool-cases, length, All,
}
use distributed_systems_trai.Base.Words.{put_uint, uint, uint_from, length-put_uint, uint-put_uint}

abbrev pub log_prefix : List ℕ
log_prefix = 0 ∷ []

abbrev pub conf_prefix : List ℕ
conf_prefix = 1 ∷ []

-- uint64ToBytes behind the prefix.
unfoldable pub log_key : ℕ → List ℕ
log_key i = log_prefix ++ put_uint 8 i

unfoldable pub conf_key : List ℕ → List ℕ
conf_key k = conf_prefix ++ k

-- bytes.Compare, as a test of less.
unfoldable pub before : List ℕ → List ℕ → Bool
before xs [] = false
before [] (y ∷ ys) = true
before (x ∷ xs) (y ∷ ys) =
    let rest = before xs ys in if ltb x y then true else if ltb y x then false else rest

IsBytes : List ℕ → Type 0
IsBytes = All (λ b. b < 256)

All-snoc : (xs : List ℕ) (b : ℕ) → IsBytes xs → b < 256 → IsBytes (xs ++ (b ∷ []))
unfolding IsBytes
All-snoc [] b h small = (small, tt)
All-snoc (x ∷ xs) b h small = (h.0, All-snoc xs b h.1 small)

put_uint-IsBytes : (w v : ℕ) → IsBytes (put_uint w v)
unfolding put_uint IsBytes
put_uint-IsBytes zero v = tt
put_uint-IsBytes (suc w) v =
    All-snoc (put_uint w (v / 256)) (v % 256) (put_uint-IsBytes w (v / 256)) (omega arith)

uint_from_mono :
    (a b : ℕ) (xs ys : List ℕ)
    → length xs ≡ length ys
    → IsBytes xs
    → a < b
    → uint_from a xs < uint_from b ys
unfolding uint_from IsBytes
uint_from_mono a b [] [] same h lt = lt
uint_from_mono a b [] (y ∷ ys) same h lt = ground arith
uint_from_mono a b (x ∷ xs) [] same h lt = ground arith
uint_from_mono a b (x ∷ xs) (y ∷ ys) same h lt =
    let small = h.0 in
    uint_from_mono (a * 256 + x) (b * 256 + y) xs ys (omega arith) h.1 (omega arith)

before-uint_from :
    (a : ℕ) (xs ys : List ℕ)
    → length xs ≡ length ys
    → IsBytes xs
    → IsBytes ys
    → before xs ys ≡ ltb (uint_from a xs) (uint_from a ys)
unfolding uint_from before IsBytes
before-uint_from a [] [] same h g = ground arith
before-uint_from a [] (y ∷ ys) same h g = ground arith
before-uint_from a (x ∷ xs) [] same h g = ground arith
before-uint_from a (x ∷ xs) (y ∷ ys) same h g =
    let again = before-uint_from (a * 256 + x) xs ys (omega arith) h.1 g.1 in
    let less = uint_from_mono (a * 256 + x) (a * 256 + y) xs ys (omega arith) h.1 in
    let more = uint_from_mono (a * 256 + y) (a * 256 + x) ys xs (omega arith) g.1 in
    elim (Bool-cases (ltb x y)) [
      | inl lt ↦ ground (arith, less (omega (arith, ltb→lt x y lt)))
      | inr ge ↦ elim (Bool-cases (ltb y x)) [
        | inl gt ↦ ground (arith, more (omega (arith, ltb→lt y x gt)))
        | inr le ↦ ground (arith, again)
      ]
    ]

-- The keys of logs are in the order of their indexes.
pub before-log_key : (i j : ℕ) → i < 2 ^ 64 → j < 2 ^ 64 → before (log_key i) (log_key j) ≡ ltb i j
unfolding log_key before uint
before-log_key i j a b =
    let order =
      before-uint_from 0 (put_uint 8 i) (put_uint 8 j)
        (length-put_uint 8 i ∙ sym (length-put_uint 8 j)) (put_uint-IsBytes 8 i)
        (put_uint-IsBytes 8 j) in
    order ∙ cong2 (uint-put_uint 8 i a) (uint-put_uint 8 j b)
  where
    cong2 : {m m' n n' : ℕ} → m ≡ m' → n ≡ n' → ltb m n ≡ ltb m' n'
    cong2 p q = cc (p, q)

pub log_key-ne_conf_key : (i : ℕ) (k : List ℕ) → log_key i ≢ conf_key k
unfolding log_key conf_key
log_key-ne_conf_key i k same = cc same

pub conf_key_injective : (k k' : List ℕ) → conf_key k ≡ conf_key k' → k ≡ k'
unfolding conf_key
conf_key_injective k k' same = cc same

pub log_key_injective : (i j : ℕ) → i < 2 ^ 64 → j < 2 ^ 64 → log_key i ≡ log_key j → i ≡ j
unfolding log_key
log_key_injective i j a b same =
    let tails : put_uint 8 i ≡ put_uint 8 j = cc same in
    sym (uint-put_uint 8 i a) ∙ ap uint tails ∙ uint-put_uint 8 j b
