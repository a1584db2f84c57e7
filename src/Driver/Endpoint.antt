-- ===== src/Driver/Endpoint.antt =====
-- The endpoints that `parseEndpoint` of pkg/driver/driver.go takes.
use Prim.Native.Char.{Char}
use text.Mathlib.TextEquality.{Char-path}
use text.Mathlib.TextLemmas.{cons-append, nil-append}
use niova_block_csi.Prelude.{
  ◌↔◌, String, ◌<>◌, ◌==◌, ◌||◌, ◌≡◌, sym, ap, ◌∙◌, some, true, Bool-cases, inl, inr, arith, eq_iff,
}
use niova_block_csi.Go.Exec.{returned}
use niova_block_csi.Go.Text.{cut_prefix, split_two}
use niova_block_csi.Driver.{parse_endpoint}

cut_prefix-some : (s p rest : String) → cut_prefix s p ≡ some rest → s ≡ p <> rest
unfolding cut_prefix
cut_prefix-some s String.[] rest k = grind (arith, nil-append)
cut_prefix-some String.[] (String.◌∷◌ d p) rest k = grind arith
cut_prefix-some (String.◌∷◌ c s) (String.◌∷◌ d p) rest k =
    grind (arith, cut_prefix-some s p rest, cons-append d p rest, Char-path c d)

split_two-some :
    (sep s before after : String)
    → split_two sep s ≡ some (before, after)
    → s ≡ before <> (sep <> after)
unfolding split_two
split_two-some sep String.[] before after k = grind arith
split_two-some sep (String.◌∷◌ c s) before after k =
    grind
      (arith, split_two-some sep s, cons-append c, nil-append, cut_prefix-some (String.◌∷◌ c s) sep)

parse_endpoint-returned :
    (endpoint proto addr : String)
    → parse_endpoint endpoint ≡ returned (proto, addr)
    → (endpoint ≡ proto <> ("://" <> addr)) × ((proto == "unix" || proto == "tcp") ≡ true)
unfolding parse_endpoint
parse_endpoint-returned endpoint proto addr k = grind (arith, split_two-some "://" endpoint)

cut_prefix-append : (p s : String) → cut_prefix (p <> s) p ≡ some s
unfolding cut_prefix
cut_prefix-append String.[] s = ap some (nil-append s)
cut_prefix-append (String.◌∷◌ d p) s = grind (arith, cut_prefix-append p s, cons-append d p s)

split_two-cons :
    (sep : String) (c : Char) (s rest : String)
    → cut_prefix (String.◌∷◌ c s) sep ≡ some rest
    → split_two sep (String.◌∷◌ c s) ≡ some ("", rest)
unfolding split_two
split_two-cons sep c s rest k = ground arith

split_two-here : (addr : String) → split_two "://" ("://" <> addr) ≡ some ("", addr)
split_two-here addr =
    let whole : "://" <> addr ≡ String.◌∷◌ ":" ("//" <> addr) = cons-append ":" "//" addr in
    let cut = cut_prefix-append "://" addr in
    let cut2 : cut_prefix (String.◌∷◌ ":" ("//" <> addr)) "://" ≡ some addr =
      ap (λ s. cut_prefix s "://") (sym whole) ∙ cut in
    ap (split_two "://") whole ∙ split_two-cons "://" ":" ("//" <> addr) addr cut2

split_two-tcp : (addr : String) → split_two "://" ("tcp" <> ("://" <> addr)) ≡ some ("tcp", addr)
unfolding split_two cut_prefix
split_two-tcp addr =
    let t = "://" <> addr in
    let a : "tcp" <> t ≡ String.◌∷◌ "t" (String.◌∷◌ "c" (String.◌∷◌ "p" t)) =
      cons-append "t" "cp" t
      ∙ ap (String.◌∷◌ "t") (
          cons-append "c" "p" t
          ∙ ap (String.◌∷◌ "c") (cons-append "p" "" t ∙ ap (String.◌∷◌ "p") (nil-append t))) in
    let e = split_two-here addr in ap (split_two "://") a ∙ ground arith

split_two-unix : (addr : String) → split_two "://" ("unix" <> ("://" <> addr)) ≡ some ("unix", addr)
unfolding split_two cut_prefix
split_two-unix addr =
    let t = "://" <> addr in
    let a : "nix" <> t ≡ String.◌∷◌ "n" (String.◌∷◌ "i" (String.◌∷◌ "x" t)) =
      cons-append "n" "ix" t
      ∙ ap (String.◌∷◌ "n") (
          cons-append "i" "x" t
          ∙ ap (String.◌∷◌ "i") (cons-append "x" "" t ∙ ap (String.◌∷◌ "x") (nil-append t))) in
    let e = split_two-here addr in
    ap (split_two "://") (cons-append "u" "nix" t ∙ ap (String.◌∷◌ "u") a) ∙ ground arith

parse_endpoint-append :
    (proto addr : String)
    → (proto == "unix" || proto == "tcp") ≡ true
    → parse_endpoint (proto <> ("://" <> addr)) ≡ returned (proto, addr)
unfolding parse_endpoint
parse_endpoint-append proto addr known = elim (Bool-cases (proto == "unix")) [
  | inl x ↦
      let p = (eq_iff proto "unix").0 x in
      let parts =
        ap (λ s. split_two "://" (s <> ("://" <> addr))) p
        ∙ split_two-unix addr
        ∙ ap (λ s. some (s, addr)) (sym p) in
      ground arith
  | inr y ↦ elim (Bool-cases (proto == "tcp")) [
    | inl x ↦
        let p = (eq_iff proto "tcp").0 x in
        let parts =
          ap (λ s. split_two "://" (s <> ("://" <> addr))) p
          ∙ split_two-tcp addr
          ∙ ap (λ s. some (s, addr)) (sym p) in
        ground arith
    | inr z ↦ absurd (ground arith)
  ]
]

-- `parseEndpoint` accepts a text as a protocol and an address exactly where the protocol is "unix" or
-- "tcp" and the text is the protocol, "://" and the address, whatever the address holds.
pub parse_endpoint_iff :
    (endpoint proto addr : String)
    → (parse_endpoint endpoint ≡ returned (proto, addr))
      ↔ ((endpoint ≡ proto <> ("://" <> addr)) × ((proto == "unix" || proto == "tcp") ≡ true))
parse_endpoint_iff endpoint proto addr = (
  parse_endpoint-returned endpoint proto addr,
  λ (whole, known). ap parse_endpoint whole ∙ parse_endpoint-append proto addr known,
)
