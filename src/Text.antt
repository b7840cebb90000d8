-- ===== src/Text.antt =====
-- What the program uses of Go's packages strings, strconv and path/filepath, over native texts.
pub mod Numbers
pub mod Paths
pub mod Suffixes
pub mod Splits
pub mod Pieces
use Prim.Native.String.{char_at}
use d2vm.Base.{
  ℕ, ◌≡◌, refl, ◌-◌, Char, code, String, ◌<>◌, Bool, true, false, ◌&&◌, ◌||◌, ◌==◌, Option, none,
  some, List, [], ◌∷◌, leb, eqb, if◌then◌else◌,
}

-- A text of one character.
abbrev pub single : Char → String
single c = String.◌∷◌ c String.[]

-- What follows the prefix, if the text begins with it.
unfoldable pub strip_prefix? : String → String → Option String
strip_prefix? s String.[] = some s
strip_prefix? String.[] (String.◌∷◌ d p) = none
strip_prefix? (String.◌∷◌ c s) (String.◌∷◌ d p) =
    if eqb (code c) (code d) then strip_prefix? s p else none

-- strings.HasPrefix
unfoldable pub has_prefix : String → String → Bool
unfolding strip_prefix?
has_prefix s p = elim (strip_prefix? s p) [ none ↦ false | some _ ↦ true ]

-- strings.TrimPrefix
unfoldable pub trim_prefix : String → String → String
unfolding strip_prefix?
trim_prefix s p = elim (strip_prefix? s p) [ none ↦ s | some rest ↦ rest ]

-- What stands before the suffix, if the text ends with it.
unfoldable pub strip_suffix? : String → String → Option String
strip_suffix? String.[] p = if "" == p then some "" else none
strip_suffix? (String.◌∷◌ c s) p =
    let rest = strip_suffix? s p in
    if String.◌∷◌ c s == p
    then some ""
    else elim rest [ none ↦ none | some front ↦ some (String.◌∷◌ c front) ]

-- strings.TrimSuffix
unfoldable pub trim_suffix : String → String → String
unfolding strip_suffix?
trim_suffix s p = elim (strip_suffix? s p) [ none ↦ s | some front ↦ front ]

-- unicode.ToLower, as far as a text that is compared with an ASCII text can show it: the capitals
-- A to Z, and the two letters beyond ASCII (İ and the Kelvin sign) whose lower case is in ASCII.
lower_char : Char → Char
lower_char c =
    if leb b'A' (code c) && leb (code c) b'Z'
    then char_at "abcdefghijklmnopqrstuvwxyz" (code c - b'A')
    else if eqb (code c) 304
    then char_at "i" 0
    else if eqb (code c) 8490
    then char_at "k" 0
    else c

-- strings.ToLower
unfoldable pub to_lower : String → String
unfolding lower_char
to_lower String.[] = ""
to_lower (String.◌∷◌ c s) = String.◌∷◌ (lower_char c) (to_lower s)

-- strings.Join
unfoldable pub join : List String → String → String
join [] sep = ""
join (s ∷ []) sep = s
join (s ∷ t ∷ rest) sep = s <> (sep <> join (t ∷ rest) sep)

-- strings.Cut at the first character with the given code.
unfoldable pub cut : ℕ → String → Option (String × String)
cut sep String.[] = none
cut sep (String.◌∷◌ c s) =
    let rest = cut sep s in
    if eqb (code c) sep
    then some ("", s)
    else elim rest [ none ↦ none | some (a, b) ↦ some (String.◌∷◌ c a, b) ]

abbrev prepend : Char → List String → List String
prepend c [] = single c ∷ []
prepend c (s ∷ rest) = String.◌∷◌ c s ∷ rest

-- strings.Split at each character with the given code.
unfoldable pub split : ℕ → String → List String
split sep String.[] = "" ∷ []
split sep (String.◌∷◌ c s) =
    let rest = split sep s in if eqb (code c) sep then "" ∷ rest else prepend c rest

-- strings.SplitN with the limit 2.
unfoldable pub split_in_two : ℕ → String → List String
unfolding cut
split_in_two sep s = elim (cut sep s) [ none ↦ s ∷ [] | some (a, b) ↦ a ∷ b ∷ [] ]

-- strings.Replace of every character with the given code.
unfoldable pub replace_char : ℕ → Char → String → String
replace_char old new String.[] = ""
replace_char old new (String.◌∷◌ c s) =
    String.◌∷◌ (if eqb (code c) old then new else c) (replace_char old new s)

-- unicode.IsSpace
is_space : Char → Bool
is_space c =
    (leb 9 (code c) && leb (code c) 13)
    || eqb (code c) 32
    || eqb (code c) 133
    || eqb (code c) 160
    || eqb (code c) 5760
    || (leb 8192 (code c) && leb (code c) 8202)
    || eqb (code c) 8232
    || eqb (code c) 8233
    || eqb (code c) 8239
    || eqb (code c) 8287
    || eqb (code c) 12288

trim_left : String → String
trim_left String.[] = ""
trim_left (String.◌∷◌ c s) = let rest = trim_left s in if is_space c then rest else String.◌∷◌ c s

trim_right : String → String
trim_right String.[] = ""
trim_right (String.◌∷◌ c s) =
    let rest = trim_right s in if is_space c && (rest == "") then "" else String.◌∷◌ c rest

-- strings.TrimSpace
unfoldable pub trim_space : String → String
unfolding is_space trim_left trim_right
trim_space s = trim_right (trim_left s)

-- strings.Fields: what stands between white space.
words_from : String → String → List String
unfolding is_space
words_from word String.[] = if word == "" then [] else word ∷ []
words_from word (String.◌∷◌ c s) =
    let rest = words_from "" s in
    let more = words_from (word <> single c) s in
    if is_space c then (if word == "" then rest else word ∷ rest) else more

unfoldable pub words : String → List String
unfolding words_from
words s = words_from "" s

-- strings.Replace of the first occurrence of a text that is not empty, by nothing.
unfoldable pub remove_first : String → String → String
unfolding strip_prefix?
remove_first old String.[] = ""
remove_first old (String.◌∷◌ c s) =
    let rest = remove_first old s in
    elim (strip_prefix? (String.◌∷◌ c s) old) [ none ↦ String.◌∷◌ c rest | some after ↦ after ]

words_test :
    (words "/dev/sda  /dev/sda1\n" ≡ "/dev/sda" ∷ "/dev/sda1" ∷ [])
    × (remove_first "/dev/sda" "/dev/sda14" ≡ "14")
unfolding words remove_first
words_test = (refl, refl)

lower_test : to_lower "QCow2" ≡ "qcow2"
unfolding to_lower
lower_test = refl

split_test : split b':' "80:22:" ≡ "80" ∷ "22" ∷ "" ∷ []
unfolding split
split_test = refl

suffix_test : trim_suffix "a\nb\n" "\n" ≡ "a\nb"
unfolding trim_suffix
suffix_test = refl

space_test : trim_space " a b\n " ≡ "a b"
unfolding trim_space
space_test = refl
