-- ===== src/Base/Slices.antt =====
-- Slices `b[i:i+n]` of a byte array, and writes into one.
use Prim.Native.Nat.{ℕ, zero, suc, ◌+◌, ◌-◌, ◌≤◌, min}
use mathlib.Core.Path.{◌≡◌, refl, ap, ◌∙◌}
use mathlib.Core.List.{List, [], ◌∷◌, ◌++◌}
use native.Mathlib.Omega.{arith}
use distributed_systems_trai.Base.Lists.{
  length, take, drop, length-append, length-take, length-drop, take-append, take_all,
}

module _ {ℓ} {A : Type ℓ} where
  -- b[i : i+n]
  unfoldable pub slice : ℕ → ℕ → List A → List A
  slice i n xs = take n (drop i xs)

  -- copy(b[i:], bs): what would go past the end of `b` is lost.
  unfoldable pub write : ℕ → List A → List A → List A
  write zero bs xs = take (length xs) bs ++ drop (length bs) xs
  write (suc i) bs [] = []
  write (suc i) bs (x ∷ xs) = x ∷ write i bs xs

  pub length-slice-min : (i n : ℕ) (xs : List A) → length (slice i n xs) ≡ min n (length xs - i)
  unfolding slice
  length-slice-min i n xs = omega (arith, length-take n (drop i xs), length-drop i xs)

  pub length-slice : (i n : ℕ) (xs : List A) → i + n ≤ length xs → length (slice i n xs) ≡ n
  unfolding slice
  length-slice i n xs h = omega (arith, length-take n (drop i xs), length-drop i xs)

  pub length-write : (i : ℕ) (bs xs : List A) → length (write i bs xs) ≡ length xs
  unfolding write
  length-write zero bs xs = omega (
    arith,
    length-append (take (length xs) bs) (drop (length bs) xs),
    length-take (length xs) bs,
    length-drop (length bs) xs,
  )
  length-write (suc i) bs [] = refl
  length-write (suc i) bs (x ∷ xs) = ap suc (length-write i bs xs)

  take-append_all : (xs ys : List A) → take (length xs) (xs ++ ys) ≡ xs
  take-append_all [] ys = refl
  take-append_all (x ∷ xs) ys = ap (λ l. x ∷ l) (take-append_all xs ys)

  pub slice-write_self :
      (i : ℕ) (bs xs : List A)
      → i + length bs ≤ length xs
      → slice i (length bs) (write i bs xs) ≡ bs
  unfolding slice write
  slice-write_self zero bs xs h =
      ap (λ l. take (length bs) (l ++ drop (length bs) xs)) (take_all bs (length xs) (omega arith))
      ∙ take-append_all bs (drop (length bs) xs)
  slice-write_self (suc i) bs [] h = absurd (omega arith)
  slice-write_self (suc i) bs (x ∷ xs) h = slice-write_self i bs xs (omega arith)

  take-write : (n i : ℕ) (bs xs : List A) → n ≤ i → take n (write i bs xs) ≡ take n xs
  unfolding write
  take-write zero i bs xs h = refl
  take-write (suc n) zero bs xs h = absurd (omega arith)
  take-write (suc n) (suc i) bs [] h = refl
  take-write (suc n) (suc i) bs (x ∷ xs) h = ap (λ l. x ∷ l) (take-write n i bs xs (omega arith))

  pub slice-write_below :
      (j n i : ℕ) (bs xs : List A) → j + n ≤ i → slice j n (write i bs xs) ≡ slice j n xs
  unfolding slice write
  slice-write_below zero n i bs xs h = take-write n i bs xs (omega arith)
  slice-write_below (suc j) n zero bs xs h = absurd (omega arith)
  slice-write_below (suc j) n (suc i) bs [] h = refl
  slice-write_below (suc j) n (suc i) bs (x ∷ xs) h = slice-write_below j n i bs xs (omega arith)

  pub slice-append_left :
      (i n : ℕ) (xs ys : List A) → i + n ≤ length xs → slice i n (xs ++ ys) ≡ slice i n xs
  unfolding slice
  slice-append_left zero n xs ys h = take-append n xs ys (omega arith)
  slice-append_left (suc i) zero [] ys h = refl
  slice-append_left (suc i) (suc n) [] ys h = absurd (omega arith)
  slice-append_left (suc i) n (x ∷ xs) ys h = slice-append_left i n xs ys (omega arith)

  pub slice-append_right :
      (k i n : ℕ) (xs ys : List A) → k ≡ length xs + i → slice k n (xs ++ ys) ≡ slice i n ys
  unfolding slice
  slice-append_right k i n [] ys h = ap (λ m. take n (drop m ys)) (omega arith)
  slice-append_right zero i n (x ∷ xs) ys h = absurd (omega arith)
  slice-append_right (suc k) i n (x ∷ xs) ys h = slice-append_right k i n xs ys (omega arith)

  pub slice_all : (xs : List A) → slice 0 (length xs) xs ≡ xs
  unfolding slice
  slice_all xs = take_all xs (length xs) (omega arith)

  pub slice-append_self : (bs ys : List A) → slice 0 (length bs) (bs ++ ys) ≡ bs
  unfolding slice
  slice-append_self bs ys = take-append_all bs ys

  pub drop-append : (k i : ℕ) (xs ys : List A) → k ≡ length xs + i → drop k (xs ++ ys) ≡ drop i ys
  drop-append k i [] ys h = ap (λ m. drop m ys) (omega arith)
  drop-append zero i (x ∷ xs) ys h = absurd (omega arith)
  drop-append (suc k) i (x ∷ xs) ys h = drop-append k i xs ys (omega arith)

  pub slice-append_head : (n : ℕ) (bs ys : List A) → n ≡ length bs → slice 0 n (bs ++ ys) ≡ bs
  slice-append_head n bs ys h = ap (λ m. slice 0 m (bs ++ ys)) h ∙ slice-append_self bs ys
