-- ===== src/Go/Strconv.antt =====
-- `strconv` in base 10 on a machine with 64-bit `int`, and the verb `%d` of `fmt`.
pub mod RoundTrip
use Prim.Native.Char.{Char, code}
use niova_block_csi.Prelude.{
  ℕ, zero, suc, ◌+◌, ◌-◌, ◌*◌, ◌/◌, ◌%◌, ◌^◌, String, ◌<>◌, ◌≡◌, refl, Bool, true, false, ◌&&◌,
  ◌||◌, ltb, leb, ◌==◌, if◌then◌else◌,
}
use niova_block_csi.Prelude.Int.{ℤ, pos, negsuc}
use niova_block_csi.Go.Error.{plain}
use niova_block_csi.Go.Exec.{Reply, returned, failed}

-- `ErrSyntax` and `ErrRange`
pub data NumFault : Type 0 where
  syntax range : NumFault

pub data Digits : Type 0 where
  value : ℕ → Digits
  fault : NumFault → Digits

-- The loop of `ParseUint(s, 10, 64)` from the digits read so far. The check of the range is made at
-- each digit, so that a text that is too long fails before a bad character behind it is seen.
unfoldable pub digits_loop : ℕ → String → Digits
digits_loop n String.[] = value n
digits_loop n (String.◌∷◌ c s) =
    let d = code c - 48 in
    let rest = digits_loop (n * 10 + d) s in
    if leb 48 (code c) && leb (code c) 57
    then (if ltb (n * 10 + d) (2 ^ 64) then rest else fault range)
    else fault syntax

unfoldable pub parse_uint : String → Digits
unfolding digits_loop
parse_uint String.[] = fault syntax
parse_uint (String.◌∷◌ c s) = digits_loop 0 (String.◌∷◌ c s)

pub data Signed : Type 0 where
  signed : ℤ → Signed
  bad : NumFault → Signed

positive : Digits → Signed
positive (value n) = if ltb n (2 ^ 63) then signed (pos n) else bad range
positive (fault f) = bad f

negative : Digits → Signed
negative (value zero) = signed (pos 0)
negative (value (suc n)) = if ltb n (2 ^ 63) then signed (negsuc n) else bad range
negative (fault f) = bad f

unfoldable pub read_int : String → Signed
unfolding positive negative parse_uint
read_int String.[] = bad syntax
read_int (String.◌∷◌ c s) =
    if leb 43 (code c) && leb (code c) 43
    then positive (parse_uint s)
    else if leb 45 (code c) && leb (code c) 45
    then negative (parse_uint s)
    else positive (parse_uint (String.◌∷◌ c s))

fault_text : NumFault → String
fault_text syntax = "invalid syntax"
fault_text range = "value out of range"

-- `NumError.Error`. The escapes of `strconv.Quote` are left out.
num_error : String → String → NumFault → String
unfolding fault_text
num_error func s f = "strconv." <> func <> ": parsing \"" <> s <> "\": " <> fault_text f

as_reply : String → String → Signed → Reply ℤ
unfolding num_error
as_reply func s (signed z) = returned z
as_reply func s (bad f) = failed (plain (num_error func s f))

-- `strconv.ParseInt(s, 10, 64)`
unfoldable pub parse_int : String → Reply ℤ
unfolding as_reply read_int
parse_int s = as_reply "ParseInt" s (read_int s)

-- `strconv.Atoi(s)`
unfoldable pub atoi : String → Reply ℤ
unfolding as_reply read_int
atoi s = as_reply "Atoi" s (read_int s)

-- `strconv.ParseBool(s)`
unfoldable pub parse_bool : String → Reply Bool
unfolding num_error
parse_bool s =
    if s == "1" || s == "t" || s == "T" || s == "true" || s == "TRUE" || s == "True"
    then returned true
    else if s == "0" || s == "f" || s == "F" || s == "false" || s == "FALSE" || s == "False"
    then returned false
    else failed (plain (num_error "ParseBool" s syntax))

unfoldable pub digit_char : ℕ → Char
digit_char zero = "0"
digit_char (suc zero) = "1"
digit_char (suc (suc zero)) = "2"
digit_char (suc (suc (suc zero))) = "3"
digit_char (suc (suc (suc (suc zero)))) = "4"
digit_char (suc (suc (suc (suc (suc zero))))) = "5"
digit_char (suc (suc (suc (suc (suc (suc zero)))))) = "6"
digit_char (suc (suc (suc (suc (suc (suc (suc zero))))))) = "7"
digit_char (suc (suc (suc (suc (suc (suc (suc (suc zero)))))))) = "8"
digit_char _ = "9"

-- The digits of `n` in front of a text. A number has fewer digits than `n + 1`.
unfoldable pub decimal_onto : ℕ → ℕ → String → String
unfolding digit_char
decimal_onto zero n rest = rest
decimal_onto (suc fuel) n rest =
    let more = decimal_onto fuel (n / 10) (String.◌∷◌ (digit_char (n % 10)) rest) in
    if ltb n 10 then String.◌∷◌ (digit_char n) rest else more

-- `fmt.Sprintf("%d", z)`
unfoldable pub format_int : ℤ → String
unfolding decimal_onto
format_int (pos n) = decimal_onto (suc n) n ""
format_int (negsuc n) = String.◌∷◌ "-" (decimal_onto (suc (suc n)) (suc n) "")

tests_of_parse_int :
    (parse_int "-042" ≡ returned (negsuc 41))
    × (parse_int "9223372036854775807" ≡ returned (pos 9223372036854775807))
    × (parse_int "-9223372036854775808" ≡ returned (negsuc 9223372036854775807))
    × (parse_int "" ≡ failed (plain "strconv.ParseInt: parsing \"\": invalid syntax"))
    × (atoi "9223372036854775808"
        ≡ failed (plain "strconv.Atoi: parsing \"9223372036854775808\": value out of range"))
unfolding parse_int atoi num_error
tests_of_parse_int = (refl, refl, refl, refl, refl)

tests_of_format_int : (format_int (pos 1073741824) ≡ "1073741824") × (format_int (negsuc 9) ≡ "-10")
unfolding format_int
tests_of_format_int = (refl, refl)
