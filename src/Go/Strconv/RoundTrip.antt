-- ===== src/Go/Strconv/RoundTrip.antt =====
-- An `int64` that `%d` prints is read back by `ParseInt`.
use Prim.Native.Char.{code}
use niova_block_csi.Prelude.{
  ℕ, zero, suc, ◌+◌, ◌*◌, ◌/◌, ◌%◌, ◌^◌, ◌<◌, String, ◌≡◌, refl, sym, ap, ◌∙◌, arith, ltb, inl, inr,
  Bool-cases,
}
use niova_block_csi.Prelude.Int.{ℤ, pos, negsuc, IsInt64}
use niova_block_csi.Go.Exec.{returned}
use niova_block_csi.Go.Strconv.{
  value, digits_loop, parse_uint, positive, negative, signed, read_int, parse_int, digit_char,
  decimal_onto, format_int,
}

code-digit_char : (d : ℕ) → d < 10 → code (digit_char d) ≡ 48 + d
unfolding digit_char
code-digit_char zero h = refl
code-digit_char (suc zero) h = refl
code-digit_char (suc (suc zero)) h = refl
code-digit_char (suc (suc (suc zero))) h = refl
code-digit_char (suc (suc (suc (suc zero)))) h = refl
code-digit_char (suc (suc (suc (suc (suc zero))))) h = refl
code-digit_char (suc (suc (suc (suc (suc (suc zero)))))) h = refl
code-digit_char (suc (suc (suc (suc (suc (suc (suc zero))))))) h = refl
code-digit_char (suc (suc (suc (suc (suc (suc (suc (suc zero)))))))) h = refl
code-digit_char (suc (suc (suc (suc (suc (suc (suc (suc (suc d))))))))) h = omega arith

digits_loop-digit :
    (n d : ℕ) (rest : String)
    → d < 10
    → n * 10 + d < 2 ^ 64
    → digits_loop n (String.◌∷◌ (digit_char d) rest) ≡ digits_loop (n * 10 + d) rest
unfolding digits_loop
digits_loop-digit n d rest h b = ground (arith, code-digit_char d h)

regroup : (n : ℕ) → n / 10 * 10 + n % 10 ≡ n
regroup n = omega arith

zero_times : (n : ℕ) → 0 * 10 + n ≡ n
zero_times n = omega arith

digits_loop_end : (n : ℕ) → digits_loop n "" ≡ value n
unfolding digits_loop
digits_loop_end n = refl

read_int-minus : (s : String) → read_int (String.◌∷◌ "-" s) ≡ negative (parse_uint s)
unfolding read_int
read_int-minus s = refl

-- Reading the digits of `n` from nothing read gives `n`.
digits_loop-decimal :
    (fuel n : ℕ) (rest : String)
    → n < fuel
    → n < 2 ^ 64
    → digits_loop 0 (decimal_onto fuel n rest) ≡ digits_loop n rest
unfolding decimal_onto
digits_loop-decimal zero n rest h b = elim h [ ]
digits_loop-decimal (suc fuel) n rest h b = elim (Bool-cases (ltb n 10)) [
  | inl short ↦ rw short (
      digits_loop-digit 0 n rest (ground arith) (ground arith)
      ∙ ap (λ k. digits_loop k rest) (zero_times n))
  | inr long ↦ rw long (
      digits_loop-decimal fuel (n / 10) _ (ground arith) (omega arith)
      ∙ digits_loop-digit (n / 10) (n % 10) rest (omega arith) (omega arith)
      ∙ ap (λ k. digits_loop k rest) (regroup n))
]

-- What `%d` prints begins with a digit.
decimal_onto-head :
    (fuel n : ℕ) (rest : String)
    → n < fuel
    → (d : ℕ) × (t : String) × (d < 10) × (decimal_onto fuel n rest ≡ String.◌∷◌ (digit_char d) t)
unfolding decimal_onto
decimal_onto-head zero n rest h = elim h [ ]
decimal_onto-head (suc fuel) n rest h = elim (Bool-cases (ltb n 10)) [
  | inl short ↦ (n, rest, ground arith, rw short)
  | inr long ↦ rw long (decimal_onto-head fuel (n / 10) _ (ground arith))
]

parse_uint-decimal :
    (fuel n : ℕ) → n < fuel → n < 2 ^ 64 → parse_uint (decimal_onto fuel n "") ≡ value n
unfolding parse_uint
parse_uint-decimal fuel n h b =
    let (d, t, small, e) = decimal_onto-head fuel n "" h in
    cc (ap parse_uint e, ap (digits_loop 0) e, digits_loop-decimal fuel n "" h b, digits_loop_end n)

read_int-digit :
    (d : ℕ) (t : String)
    → d < 10
    → read_int (String.◌∷◌ (digit_char d) t) ≡ positive (parse_uint (String.◌∷◌ (digit_char d) t))
unfolding read_int
read_int-digit d t h = ground (arith, code-digit_char d h)

read_int-format_int : (z : ℤ) → IsInt64 z → read_int (format_int z) ≡ signed z
unfolding format_int positive
read_int-format_int (pos n) h =
    let (d, t, small, e) = decimal_onto-head (suc n) n "" (omega arith) in
    ap read_int e
    ∙ read_int-digit d t small
    ∙ ap (λ s. positive (parse_uint s)) (sym e)
    ∙ ap positive (parse_uint-decimal (suc n) n (omega arith) (omega arith))
    ∙ ground arith
read_int-format_int (negsuc n) h =
    read_int-minus (decimal_onto (suc (suc n)) (suc n) "")
    ∙ ap negative (parse_uint-decimal (suc (suc n)) (suc n) (omega arith) (omega arith))
    ∙ unfold negative in ground arith

-- Every `int64` that `fmt` prints with `%d` is read back by `strconv.ParseInt`.
pub parse_int-format_int : (z : ℤ) → IsInt64 z → parse_int (format_int z) ≡ returned z
unfolding parse_int
parse_int-format_int z h = rw (read_int-format_int z h)
