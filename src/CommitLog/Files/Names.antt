-- ===== src/CommitLog/Files/Names.antt =====
-- Names as texts, by their ASCII codes: printing a base offset and reading it back.
use distributed_systems_trai.Base.{
  ℕ, zero, suc, ◌+◌, ◌-◌, ◌*◌, ◌/◌, ◌%◌, ◌^◌, ◌≤◌, ◌<◌, ◌≡◌, refl, ap, ◌∙◌, inl, inr, Bool, ◌&&◌,
  Option, none, some, List, [], ◌∷◌, ◌++◌, arith, ltb, leb, ◌==◌, if◌then◌else◌, ltb→lt, ltb→ge,
  Bool-cases, All,
}
use distributed_systems_trai.CommitLog.Files.{File, Ext, store, index}

-- `%d`, on fuel: `n + 1` is enough, since `n` has fewer digits.
decimal_fuel : ℕ → ℕ → List ℕ
decimal_fuel zero n = []
decimal_fuel (suc fuel) n =
    let last = (b'0' + n % 10) ∷ [] in
    let more = decimal_fuel fuel (n / 10) ++ last in if ltb n 10 then last else more

unfoldable pub decimal : ℕ → List ℕ
unfolding decimal_fuel
decimal n = decimal_fuel (suc n) n

abbrev pub suffix : Ext → List ℕ
suffix store = b'.' ∷ b's' ∷ b't' ∷ b'o' ∷ b'r' ∷ b'e' ∷ []
suffix index = b'.' ∷ b'i' ∷ b'n' ∷ b'd' ∷ b'e' ∷ b'x' ∷ []

-- fmt.Sprintf("%d.store", base) and fmt.Sprintf("%d.index", base)
unfoldable pub file_name : File → List ℕ
unfolding decimal
file_name f = decimal f.base ++ suffix f.ext

-- What stands before the last dot, if there is one.
before_dot : List ℕ → Option (List ℕ)
before_dot [] = none
before_dot (c ∷ cs) = elim (before_dot cs) [
  | some stem ↦ some (c ∷ stem)
  | none ↦ if c == b'.' then some [] else none
]

-- strings.TrimSuffix(name, path.Ext(name))
unfoldable pub trim_ext : List ℕ → List ℕ
unfolding before_dot
trim_ext name = elim (before_dot name) [ some stem ↦ stem | none ↦ name ]

abbrev is_digit : ℕ → Bool
is_digit c = leb b'0' c && leb c b'9'

parse_digits : ℕ → List ℕ → ℕ
parse_digits n [] = n
parse_digits n (c ∷ cs) =
    let n' = n * 10 + (c - b'0') in
    let rest = parse_digits n' cs in
    if is_digit c then (if ltb n' (2 ^ 64) then rest else 2 ^ 64 - 1) else 0

-- The value of strconv.ParseUint(text, 10, 0): 0 for no number, and the largest uint64 for one that
-- is too large; its error is dropped by the caller.
unfoldable pub parse_uint : List ℕ → ℕ
unfolding parse_digits
parse_uint text = parse_digits 0 text

-- The base offset that `setup` reads from the name of a file.
unfoldable pub base_of_name : List ℕ → ℕ
unfolding parse_uint trim_ext
base_of_name name = parse_uint (trim_ext name)

-- The number that digits stand for, without a bound.
value : ℕ → List ℕ → ℕ
value n [] = n
value n (c ∷ cs) = value (n * 10 + (c - b'0')) cs

abbrev AllDigits : List ℕ → Type 0
AllDigits = All (λ c. (b'0' ≤ c) × (c ≤ b'9'))

AllDigits-append :
    (xs : List ℕ) (c : ℕ) → AllDigits xs → b'0' ≤ c → c ≤ b'9' → AllDigits (xs ++ (c ∷ []))
AllDigits-append [] c h lo hi = ((lo, hi), tt)
AllDigits-append (x ∷ xs) c h lo hi = (h.0, AllDigits-append xs c h.1 lo hi)

value-append :
    (n : ℕ) (xs : List ℕ) (c : ℕ) → value n (xs ++ (c ∷ [])) ≡ value n xs * 10 + (c - b'0')
unfolding value
value-append n [] c = refl
value-append n (x ∷ xs) c = value-append (n * 10 + (x - b'0')) xs c

le-value : (n : ℕ) (xs : List ℕ) → n ≤ value n xs
unfolding value
le-value n [] = omega arith
le-value n (c ∷ cs) = omega (arith, le-value (n * 10 + (c - b'0')) cs)

parse_digits-value :
    (n : ℕ) (xs : List ℕ) → AllDigits xs → value n xs < 2 ^ 64 → parse_digits n xs ≡ value n xs
unfolding value parse_digits
parse_digits-value n [] digits small = refl
parse_digits-value n (c ∷ cs) digits small =
    let n' = n * 10 + (c - b'0') in
    ground (arith, parse_digits-value n' cs digits.1 small, le-value n' cs, digits.0)

decimal_fuel-AllDigits : (fuel n : ℕ) → AllDigits (decimal_fuel fuel n)
unfolding decimal_fuel
decimal_fuel-AllDigits zero n = tt
decimal_fuel-AllDigits (suc fuel) n =
    let rest =
      AllDigits-append (decimal_fuel fuel (n / 10)) (b'0' + n % 10)
        (decimal_fuel-AllDigits fuel (n / 10)) (omega arith) (omega arith) in
    elim (Bool-cases (ltb n 10)) [
      | inl one ↦ rw one ((omega arith, omega arith), tt)
      | inr more ↦ rw more rest
    ]

value-decimal_fuel : (fuel n : ℕ) → n < fuel → value 0 (decimal_fuel fuel n) ≡ n
unfolding decimal_fuel value
value-decimal_fuel zero n h = absurd (omega arith)
value-decimal_fuel (suc fuel) n h = elim (Bool-cases (ltb n 10)) [
  | inl one ↦ rw one (omega (arith, ltb→lt n 10 one))
  | inr more ↦ rw more (
      omega (
        arith,
        ltb→ge n 10 more,
        value-append 0 (decimal_fuel fuel (n / 10)) (b'0' + n % 10),
        value-decimal_fuel fuel (n / 10) (omega (arith, ltb→ge n 10 more)),
      ))
]

before_dot-append : (xs ys : List ℕ) → before_dot ys ≡ some [] → before_dot (xs ++ ys) ≡ some xs
unfolding before_dot
before_dot-append [] ys h = h
before_dot-append (x ∷ xs) ys h = ground (arith, before_dot-append xs ys h)

trim_ext-append : (xs ys : List ℕ) → before_dot ys ≡ some [] → trim_ext (xs ++ ys) ≡ xs
unfolding trim_ext
trim_ext-append xs ys h = ap trimmed (before_dot-append xs ys h)
  where
    trimmed : Option (List ℕ) → List ℕ
    trimmed o = elim o [ some stem ↦ stem | none ↦ xs ++ ys ]

before_dot-suffix : (ext : Ext) → before_dot (suffix ext) ≡ some []
unfolding before_dot
before_dot-suffix store = refl
before_dot-suffix index = refl

-- The base offset that is read from a file's name is the one that the name was made from, for every
-- uint64.
pub base_of_name-file_name : (f : File) → f.base < 2 ^ 64 → base_of_name (file_name f) ≡ f.base
unfolding base_of_name file_name
base_of_name-file_name f small =
    let digits = decimal_fuel (suc f.base) f.base in
    let counted = value-decimal_fuel (suc f.base) f.base (omega arith) in
    let parsed =
      parse_digits-value 0 digits (decimal_fuel-AllDigits (suc f.base) f.base)
        (omega (arith, counted)) in
    ap (parse_digits 0) (trim_ext-append digits (suffix f.ext) (before_dot-suffix f.ext))
    ∙ parsed
    ∙ counted
