-- ===== src/Text/Paths.antt =====
-- path/filepath on Unix.
use mathlib.Core.List.{reverse}
use d2vm.Base.{
  code, String, ◌<>◌, ◌≡◌, refl, Bool, true, false, not, ◌&&◌, ◌||◌, ◌==◌, Option, none, some, List,
  [], ◌∷◌, eqb, if◌then◌else◌,
}
use d2vm.Text.{join, split}

-- `..` takes the last element away, but not above the root, and not another `..`.
up : Bool → List String → List String
up true [] = []
up false [] = ".." ∷ []
up rooted (last ∷ kept) = if last == ".." then ".." ∷ last ∷ kept else kept

-- The loop of filepath.Clean over the elements; the last one kept stands in front.
clean_from : Bool → List String → List String → List String
clean_from rooted kept [] = reverse kept
clean_from rooted kept (part ∷ parts) =
    clean_from rooted
      (if part == "" || part == "."
        then kept
        else if part == ".."
        then up rooted kept
        else part ∷ kept)
      parts

is_rooted : String → Bool
is_rooted String.[] = false
is_rooted (String.◌∷◌ c s) = eqb (code c) b'/'

-- filepath.Clean
unfoldable pub clean : String → String
unfolding clean_from up is_rooted join split
clean path =
    let rest = join (clean_from (is_rooted path) [] (split b'/' path)) "/" in
    if is_rooted path then "/" <> rest else if rest == "" then "." else rest

-- filepath.Join
unfoldable pub join_path : List String → String
unfolding clean
join_path [] = ""
join_path (part ∷ parts) =
    let rest = join_path parts in if part == "" then rest else clean (join (part ∷ parts) "/")

last_element : String → List String → String
last_element found [] = found
last_element found (part ∷ parts) = last_element (if part == "" then found else part) parts

-- filepath.Base
unfoldable pub base : String → String
unfolding last_element split
base path = if path == "" then "." else last_element "/" (split b'/' path)

has_slash : String → Bool
has_slash String.[] = false
has_slash (String.◌∷◌ c s) = eqb (code c) b'/' || has_slash s

-- The path up to its last slash.
dir_part : String → String
unfolding has_slash
dir_part String.[] = ""
dir_part (String.◌∷◌ c s) =
    let rest = dir_part s in if eqb (code c) b'/' || has_slash s then String.◌∷◌ c rest else ""

-- filepath.Dir
unfoldable pub dir : String → String
unfolding dir_part clean
dir path = clean (dir_part path)

-- filepath.Ext
unfoldable pub ext : String → String
unfolding has_slash
ext String.[] = ""
ext (String.◌∷◌ c s) =
    let rest = ext s in
    if not (rest == "")
    then rest
    else if eqb (code c) b'.' && not (has_slash s)
    then String.◌∷◌ c s
    else ""

-- The elements of a cleaned path, as the loop of filepath.Rel meets them.
elements : String → List String
elements path = if path == "." then [] else if path == "/" then "" ∷ [] else split b'/' path

ups : List String → List String → List String
ups [] rest = rest
ups (b ∷ base) rest = ".." ∷ ups base rest

-- From the first elements that differ: `none` where the way up is not known.
climb : List String → List String → Option String
unfolding ups
climb [] rest = some (join rest "/")
climb (b ∷ base) [] = some (join (ups (b ∷ base) []) "/")
climb (b ∷ base) (t ∷ rest) =
    if b == t
    then climb base rest
    else if b == ".."
    then none
    else some (join (ups (b ∷ base) (t ∷ rest)) "/")

abbrev same_flag : Bool → Bool → Bool
same_flag true b = b
same_flag false b = not b

-- filepath.Rel
unfoldable pub rel : String → String → Option String
unfolding elements climb is_rooted
rel base_path target_path =
    let base = clean base_path in
    let target = clean target_path in
    if target == base
    then some "."
    else if same_flag (is_rooted base) (is_rooted target)
    then climb (elements base) (elements target)
    else none

rel_test :
    (rel "/src" "/src/docker/Dockerfile" ≡ some "docker/Dockerfile")
    × (rel "/a/b" "/a/bc/Dockerfile" ≡ some "../bc/Dockerfile")
    × (rel "/" "/x" ≡ some "x")
    × (rel "/x" "/" ≡ some "..")
unfolding rel clean
rel_test = (refl, refl, refl, refl)

clean_test :
    (clean "/a/../../b//./c/" ≡ "/b/c")
    × (clean "../a/.." ≡ "..")
    × (clean "" ≡ ".")
    × (join_path ("/tmp" ∷ "/mnt" ∷ []) ≡ "/tmp/mnt")
unfolding clean join_path
clean_test = (refl, refl, refl, refl)

parts_test :
    (base "/dev/loop0" ≡ "loop0")
    × (dir "/a/b/c.x" ≡ "/a/b")
    × (ext "out/d.tar.qcow2" ≡ ".qcow2")
    × (ext "a.b/c" ≡ "")
    × (dir "c" ≡ ".")
unfolding base dir ext
parts_test = (refl, refl, refl, refl, refl)
