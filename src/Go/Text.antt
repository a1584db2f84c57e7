-- ===== src/Go/Text.antt =====
-- `strings` and `path/filepath`. Go's texts are bytes; here they are sequences of characters.
use Prim.Native.Char.{code}
use text.Mathlib.Text.{find?}
use niova_block_csi.Prelude.{
  ℕ, ◌+◌, String, ◌≡◌, refl, Bool, true, false, ◌&&◌, ◌||◌, List, [], ◌∷◌, Option, none, some, leb,
  nat_eq, ◌==◌, if◌then◌else◌, is_some,
}

-- `strings.Contains(s, t)`
unfoldable pub contains : String → String → Bool
contains s t = is_some (find? s t)

-- `unicode.IsSpace`
is_space : ℕ → Bool
is_space c =
    (leb 9 c && leb c 13)
    || nat_eq c 32
    || nat_eq c 0x85
    || nat_eq c 0xA0
    || nat_eq c 0x1680
    || (leb 0x2000 c && leb c 0x200a)
    || nat_eq c 0x2028
    || nat_eq c 0x2029
    || nat_eq c 0x202f
    || nat_eq c 0x205f
    || nat_eq c 0x3000

trim_left : String → String
unfolding is_space
trim_left String.[] = ""
trim_left (String.◌∷◌ c s) =
    let rest = trim_left s in if is_space (code c) then rest else String.◌∷◌ c s

trim_right : String → String
unfolding is_space
trim_right String.[] = ""
trim_right (String.◌∷◌ c s) =
    let rest = trim_right s in if rest == "" && is_space (code c) then "" else String.◌∷◌ c rest

-- `strings.TrimSpace`
unfoldable pub trim_space : String → String
unfolding trim_left trim_right
trim_space s = trim_right (trim_left s)

-- The characters of a text, as numbers.
abbrev pub codes : String → List ℕ
codes String.[] = []
codes (String.◌∷◌ c s) = code c ∷ codes s

-- `unicode.ToLower`, for the characters that it takes to an ASCII letter. Others stay as they are.
lower_code : ℕ → ℕ
lower_code c =
    if leb b'A' c && leb c b'Z'
    then c + 32
    else if nat_eq c 0x212a
    then b'k'
    else if nat_eq c 0x130
    then b'i'
    else c

abbrev codes_eq : List ℕ → List ℕ → Bool
codes_eq [] [] = true
codes_eq (a ∷ s) (b ∷ t) = nat_eq a b && codes_eq s t
codes_eq _ _ = false

lower_codes : List ℕ → List ℕ
unfolding lower_code
lower_codes [] = []
lower_codes (c ∷ s) = lower_code c ∷ lower_codes s

-- `strings.ToLower(s) == t`, for an ASCII text `t`.
unfoldable pub lower_equals : String → String → Bool
unfolding lower_codes
lower_equals s t = codes_eq (lower_codes (codes s)) (codes t)

-- `strings.CutPrefix`: the rest of `s` behind `p`, if `s` begins with `p`.
unfoldable pub cut_prefix : String → String → Option String
cut_prefix s String.[] = some s
cut_prefix String.[] (String.◌∷◌ d p) = none
cut_prefix (String.◌∷◌ c s) (String.◌∷◌ d p) =
    let rest = cut_prefix s p in if nat_eq (code c) (code d) then rest else none

-- `strings.HasPrefix`
unfoldable pub has_prefix : String → String → Bool
unfolding cut_prefix
has_prefix s p = is_some (cut_prefix s p)

-- `strings.TrimPrefix`
unfoldable pub trim_prefix : String → String → String
unfolding cut_prefix
trim_prefix s p = elim (cut_prefix s p) [ none ↦ s | some rest ↦ rest ]

-- `strings.SplitN(s, sep, 2)`, where it gives two parts.
unfoldable pub split_two : String → String → Option (String × String)
split_two sep String.[] = none
split_two sep (String.◌∷◌ c s) =
    let later = split_two sep s in
    elim (cut_prefix (String.◌∷◌ c s) sep) [
      | some rest ↦ some ("", rest)
      | none ↦ elim later [ none ↦ none | some (before, after) ↦ some (String.◌∷◌ c before, after) ]
    ]

tests_of_text :
    (trim_space " \tx y\n" ≡ "x y")
    × (contains "token is expired" "expired" ≡ true)
    × (contains "token" "expired" ≡ false)
    × (lower_equals "HyperVisor" "hypervisor" ≡ true)
    × (has_prefix "ublkb12" "ublkb" ≡ true)
    × (trim_prefix "ublkb12" "ublkb" ≡ "12")
    × (trim_prefix "ublk12" "ublkb" ≡ "ublk12")
unfolding trim_space contains lower_equals has_prefix trim_prefix
tests_of_text = (refl, refl, refl, refl, refl, refl, refl)
