-- ===== src/Go/Filepath.antt =====
-- `path/filepath` on a Unix system, and `strings.Split` at one character.
use Prim.Native.Char.{code}
use niova_block_csi.Prelude.{
  ℕ, String, ◌<>◌, ◌≡◌, refl, Bool, true, false, ◌||◌, List, [], ◌∷◌, nat_eq, ◌==◌, if◌then◌else◌,
}
use niova_block_csi.Go.Text.{contains, has_prefix}

-- A character in front of the first part.
abbrev onto_first : String → List String → List String
onto_first c [] = c ∷ []
onto_first c (part ∷ parts) = (c <> part) ∷ parts

-- `strings.Split(s, sep)`, for a separator of one character.
unfoldable pub split_at : ℕ → String → List String
split_at sep String.[] = "" ∷ []
split_at sep (String.◌∷◌ c s) =
    let parts = split_at sep s in
    if nat_eq (code c) sep then "" ∷ parts else onto_first (String.◌∷◌ c "") parts

-- `strings.Join(parts, sep)`
unfoldable pub join : String → List String → String
join sep [] = ""
join sep (part ∷ []) = part
join sep (part ∷ next ∷ parts) = part <> (sep <> join sep (next ∷ parts))

last_of : List String → String
last_of [] = ""
last_of (part ∷ []) = part
last_of (part ∷ next ∷ parts) = last_of (next ∷ parts)

reversed_onto : List String → List String → List String
reversed_onto [] out = out
reversed_onto (x ∷ xs) out = reversed_onto xs (x ∷ out)

-- `..`, with the elements that are kept so far, the last one first.
up : Bool → List String → List String
up true [] = []
up false [] = ".." ∷ []
up rooted (e ∷ kept) = if e == ".." then ".." ∷ e ∷ kept else kept

clean_elements : Bool → List String → List String → List String
unfolding up
clean_elements rooted [] kept = reversed_onto kept []
clean_elements rooted (e ∷ rest) kept =
    clean_elements rooted rest
      (if e == "" || e == "." then kept else if e == ".." then up rooted kept else e ∷ kept)

-- `filepath.Clean`
unfoldable pub clean : String → String
unfolding clean_elements reversed_onto split_at join has_prefix
clean path =
    let body = join "/" (clean_elements (has_prefix path "/") (split_at b'/' path) []) in
    if has_prefix path "/" then "/" <> body else if body == "" then "." else body

-- All but the last element.
but_last : List String → List String
but_last [] = []
but_last (part ∷ []) = []
but_last (part ∷ next ∷ parts) = part ∷ but_last (next ∷ parts)

-- `filepath.Dir`: all up to the last slash, cleaned.
unfoldable pub dir : String → String
unfolding but_last clean
dir path =
    clean (join "/" (but_last (split_at b'/' path)) <> (if contains path "/" then "/" else ""))

drop_empty : List String → List String
drop_empty [] = []
drop_empty (part ∷ parts) = let rest = drop_empty parts in if part == "" then rest else part ∷ rest

-- `filepath.Base`: the last element, without the slashes at the end.
unfoldable pub base : String → String
unfolding drop_empty last_of split_at
base path =
    let name = last_of (drop_empty (split_at b'/' path)) in
    if path == "" then "." else if name == "" then "/" else name

tests_of_filepath :
    (clean "/a/./b//../c/" ≡ "/a/c")
    × (clean "../x/.." ≡ "..")
    × (clean "" ≡ ".")
    × (dir "/var/lib/kubelet/pods/p" ≡ "/var/lib/kubelet/pods")
    × (dir "x" ≡ ".")
    × (dir "/x" ≡ "/")
    × (base "/dev/ublkb12" ≡ "ublkb12")
    × (base "/dev/" ≡ "dev")
    × (base "//" ≡ "/")
unfolding clean dir base contains
tests_of_filepath = (refl, refl, refl, refl, refl, refl, refl, refl, refl)
