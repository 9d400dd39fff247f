-- ===== src/Base/Text.antt =====
-- The text that the standard library makes of numbers: `%d` and `hex.EncodeToString`, and readers
-- of both. A text is the list of its bytes.
use Prim.Native.Nat.{ℕ, zero, suc, ◌+◌, ◌-◌, ◌*◌, ◌/◌, ◌%◌, ◌^◌, ◌≤◌, ◌<◌}
use Prim.Native.Char.{code}
use Prim.Native.String.{String}
use mathlib.Core.Path.{◌≡◌, refl, sym, ap, subst, ◌∙◌}
use mathlib.Core.Logic.{inl, inr}
use mathlib.Core.List.{List, [], ◌∷◌, ◌++◌}
use mathlib.Core.Option.{Option, none, some}
use native.Mathlib.Omega.{arith}
use native.Mathlib.Nat.{mul_comm, pow-suc, div-add-mod', div-lt_iff_lt-mul, mod-lt, one-le-pow}
use abcfe.Base.Tests.{ltb, if◌then◌else◌, Bool-cases}

-- The bytes of an ASCII text.
abbrev pub codes : String → List ℕ
codes String.[] = []
codes (String.◌∷◌ c s) = code c ∷ codes s

-- `%d` of a 64-bit number: 20 digits are enough.
unfoldable pub digits : ℕ → ℕ → List ℕ → List ℕ
digits zero n acc = acc
digits (suc fuel) n acc =
    let rest = digits fuel (n / 10) ((48 + n % 10) ∷ acc) in
    if ltb n 10 then (48 + n) ∷ acc else rest

unfoldable pub decimal : ℕ → List ℕ
decimal n = digits 20 n []

abbrev pub hex_digit : ℕ → ℕ
hex_digit d = if ltb d 10 then 48 + d else 87 + d

-- `hex.EncodeToString`: so many digits, the highest first.
unfoldable pub hex_text : ℕ → ℕ → List ℕ
hex_text zero n = []
hex_text (suc w) n = hex_digit (n / 16 ^ w) ∷ hex_text w (n % 16 ^ w)

-- The number that decimal digits write after those already read, to the end of the text.
unfoldable pub read_decimal : ℕ → List ℕ → ℕ
read_decimal acc [] = acc
read_decimal acc (c ∷ s) = read_decimal (acc * 10 + (c - 48)) s

-- So many hexadecimal digits, and what follows them.
unfoldable pub read_hex : ℕ → ℕ → List ℕ → Option (ℕ × List ℕ)
read_hex zero acc s = some (acc, s)
read_hex (suc w) acc [] = none
read_hex (suc w) acc (c ∷ s) = read_hex w (acc * 16 + (if ltb c 58 then c - 48 else c - 87)) s

pow_step : (b k n : ℕ) → n < b ^ suc k → n < b ^ k * b
pow_step b k n h = subst (λ m. n < m) (pow-suc b k) h

quotient_lt : (k n : ℕ) → n < 10 ^ suc k → n / 10 < 10 ^ k
quotient_lt k n h =
    (div-lt_iff_lt-mul {k = 10} {x = n} {y = 10 ^ k} (omega arith)).1 (pow_step 10 k n h)

pub top_lt : (k n : ℕ) → n < 16 ^ suc k → n / 16 ^ k < 16
top_lt k n h =
    (div-lt_iff_lt-mul {k = 16 ^ k} {x = n} {y = 16} (one-le-pow k 16 (omega arith))).1
      (subst (λ m. n < m) (mul_comm (16 ^ k) 16) (pow_step 16 k n h))

read_decimal-digits :
    (fuel n : ℕ) (acc : List ℕ)
    → n < 10 ^ suc fuel
    → read_decimal 0 (digits (suc fuel) n acc) ≡ read_decimal n acc
unfolding digits read_decimal
read_decimal-digits zero n acc h = ground (arith, h)
read_decimal-digits (suc fuel) n acc h = elim (Bool-cases (ltb n 10)) [
  | inl small ↦ rw small (ap (λ m. read_decimal m acc) (omega arith))
  | inr large ↦ rw large (
      read_decimal-digits fuel (n / 10) ((48 + n % 10) ∷ acc) (quotient_lt (suc fuel) n h)
      ∙ ap (λ m. read_decimal m acc) (omega arith))
]

digits_first :
    (fuel n : ℕ) (acc : List ℕ)
    → n < 10 ^ suc fuel
    → (c : ℕ) × (s : List ℕ) × (digits (suc fuel) n acc ≡ c ∷ s) × (48 ≤ c) × (c < 58)
unfolding digits
digits_first zero n acc h = (48 + n, acc, ground (arith, h), omega arith, ground (arith, h))
digits_first (suc fuel) n acc h = elim (Bool-cases (ltb n 10)) [
  | inl small ↦ (48 + n, acc, rw small refl, omega arith, ground arith)
  | inr large ↦
      rw large (digits_first fuel (n / 10) ((48 + n % 10) ∷ acc) (quotient_lt (suc fuel) n h))
]

-- Reading what `%d` writes gives the number back.
pub read_decimal-decimal : (n : ℕ) → n < 10 ^ 20 → read_decimal 0 (decimal n) ≡ n
unfolding decimal read_decimal
read_decimal-decimal n h = read_decimal-digits 19 n [] h

-- What `%d` writes starts with a digit.
pub decimal_first :
    (n : ℕ) → n < 10 ^ 20 → (c : ℕ) × (s : List ℕ) × (decimal n ≡ c ∷ s) × (48 ≤ c) × (c < 58)
unfolding decimal
decimal_first n h = digits_first 19 n [] h

shifted : (a q p r n : ℕ) → q * p + r ≡ n → (a * 16 + q) * p + r ≡ a * (p * 16) + n
shifted a q p r n h = omega (arith, h)

hex_read :
    (d : ℕ) → d < 16 → (if ltb (hex_digit d) 58 then hex_digit d - 48 else hex_digit d - 87) ≡ d
hex_read d h = ground arith

-- Reading so many hexadecimal digits gives the number back, and what follows.
pub read_hex-hex_text :
    (w acc n : ℕ) (s : List ℕ)
    → n < 16 ^ w
    → read_hex w acc (hex_text w n ++ s) ≡ some (acc * 16 ^ w + n, s)
unfolding read_hex hex_text
read_hex-hex_text zero acc n s h = ground (arith, h)
read_hex-hex_text (suc w) acc n s h = rw (hex_read (n / 16 ^ w) (top_lt w n h)) (
    read_hex-hex_text w (acc * 16 + n / 16 ^ w) (n % 16 ^ w) s
      (mod-lt n (one-le-pow w 16 (omega arith)))
    ∙ ap (λ m. some (m, s))
        (shifted acc (n / 16 ^ w) (16 ^ w) (n % 16 ^ w) n (div-add-mod' n (16 ^ w))
          ∙ ap (λ m. acc * m + n) (sym (pow-suc 16 w))))

-- What `hex.EncodeToString` writes starts with a digit or a letter up to f.
pub hex_first :
    (w n : ℕ)
    → n < 16 ^ suc w
    → (c : ℕ) × (s : List ℕ) × (hex_text (suc w) n ≡ c ∷ s) × (48 ≤ c) × (c < 103)
unfolding hex_text
hex_first w n h = (
  hex_digit (n / 16 ^ w),
  hex_text w (n % 16 ^ w),
  refl,
  ground arith,
  ground (arith, top_lt w n h),
)
