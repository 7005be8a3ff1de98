-- ===== src/Float.antt =====
-- Rust's `f64`, as far as src/storage/index.rs computes with it: values that are finite and not
-- negative, the conversion from `usize` and the quotient.
pub mod Rounding
use cndb.Prelude.{ℕ, zero, suc, ◌+◌, ◌*◌, ◌/◌, ◌%◌, ◌^◌, true, false, ltb, if◌then◌else◌}

-- A finite value is a multiple of the smallest one above 0, which is 2^-1074.
pub data F64 : Type 0 where
  finite : (units : ℕ) → F64
  infinite not_a_number : F64

abbrev pub nought : F64
nought = finite 0

-- 1.0
abbrev pub unity : ℕ
unity = 2 ^ 1074

-- `k` or its successor, whichever is nearer to `k + r / w`, and of two the even one.
unfoldable pub pick : (k r w : ℕ) → ℕ
pick k r w = if ltb (2 * r) w then k else if ltb w (2 * r) then k + 1 else k + k % 2

-- `n / d` rounded to a multiple of `u`
unfoldable pub nearest : (n d u : ℕ) → ℕ
nearest n d u = pick (n / (d * u)) (n % (d * u)) (d * u) * u

-- The first exponent from `j` on at which 53 binary digits reach `n`.
unfoldable pub exponent : ℕ → ℕ → ℕ → ℕ
exponent zero n j = j
exponent (suc fuel) n j = elim (ltb n (2 ^ (53 + j))) [ true ↦ j | false ↦ exponent fuel n (suc j) ]

-- A significand has 53 binary digits. Below 2^1127, which is 2^53 as an `f64`, no exponent is above
-- 1074; the fuel is that of the largest `f64`.
unfoldable pub rounded : (n d : ℕ) → ℕ
rounded n d = nearest n d (2 ^ exponent 2046 (n / d) 0)

-- `n as f64`, which is far below the largest `f64`
unfoldable pub of_usize : ℕ → F64
of_usize n = finite (rounded (n * unity) 1)

-- What is rounded to 2^1024 or more is infinite.
unfoldable pub bounded : ℕ → F64
bounded units = if ltb units (2 ^ 2098) then finite units else infinite

-- `a / b`
unfoldable pub div : F64 → F64 → F64
div (finite a) (finite zero) = if ltb 0 a then infinite else not_a_number
div (finite a) (finite (suc b)) = bounded (rounded (a * unity) (suc b))
div (finite a) infinite = nought
div infinite (finite b) = infinite
div infinite infinite = not_a_number
div not_a_number b = not_a_number
div a not_a_number = not_a_number
