-- ===== src/RunUtil/Sizes.antt =====
-- cmd/d2vm/run/util.go: sizes as Go's int, with its wrap-around, and lists of texts.
pub mod Laws
use d2vm.Base.{
  ℕ, ◌+◌, ◌-◌, ◌*◌, ◌/◌, ◌%◌, ◌^◌, String, ◌<>◌, Bool, true, false, not, ◌&&◌, ◌==◌, Option, none,
  some, List, [], ◌∷◌, Result, ok, err, ltb, leb, eqb, if◌then◌else◌,
}
use d2vm.Text.{strip_suffix?, trim_prefix, has_prefix, split}
use d2vm.Text.Numbers.{ℤ, pos, negsuc, atoi, scan}
use d2vm.Files.{to_int64}

-- The int that an exact result is kept as.
unfoldable pub wrap_int : ℤ → ℤ
unfolding to_int64
wrap_int (pos n) = to_int64 n
wrap_int (negsuc n) = to_int64 (2 ^ 64 - 1 - n % 2 ^ 64)

-- 1024 times an int, exactly.
unfoldable pub times_1024 : ℤ → ℤ
times_1024 (pos n) = pos (1024 * n)
times_1024 (negsuc n) = negsuc (1024 * n + 1023)

unsigned : String → String
unsigned s = if has_prefix s "-" then trim_prefix s "-" else trim_prefix s "+"

abbrev is_some : Option ℕ → Bool
is_some none = false
is_some (some n) = true

-- strconv.Atoi with its error: a number that does not fit has digits only.
unfoldable pub parse_int : String → Result ℤ
unfolding unsigned
parse_int s = elim (atoi s) [
  | some i ↦ ok i
  | none ↦ err (
      "strconv.Atoi: parsing \""
      <> (s
          <> ("\": "
              <> (if not (unsigned s == "") && is_some (scan (unsigned s) 0)
                  then "value out of range"
                  else "invalid syntax"))))
]

in_mb : Result ℤ → Result ℤ
in_mb (err e) = err e
in_mb (ok i) = ok (wrap_int (times_1024 i))

gb_size : String → Option String → Result ℤ
unfolding in_mb
gb_size s none = in_mb (parse_int s)
gb_size s (some number) = in_mb (parse_int number)

mb_size : String → Option String → Result ℤ
unfolding gb_size
mb_size s none = gb_size s (strip_suffix? s "G")
mb_size s (some number) = parse_int number

unfoldable pub get_disk_size_mb : String → Result ℤ
unfolding mb_size parse_int wrap_int times_1024
get_disk_size_mb s = if s == "" then ok (pos 0) else mb_size s (strip_suffix? s "M")

negative : ℕ → ℤ
negative n = if eqb n 0 then pos 0 else negsuc (n - 1)

-- Go's division by 1024 rounds towards 0.
unfoldable pub over_1024 : ℤ → ℤ
unfolding negative
over_1024 (pos n) = pos (n / 1024)
over_1024 (negsuc n) = negative ((n + 1) / 1024)

unfoldable pub convert_mb_to_gb : ℤ → ℤ
unfolding over_1024 wrap_int
convert_mb_to_gb (negsuc n) = pos 1
convert_mb_to_gb (pos n) =
    if ltb n 1024
    then pos 1
    else if eqb (n % 1024) 0
    then pos (n / 1024)
    else over_1024 (wrap_int (pos (n + (1024 - n % 1024))))

int_or_zero : Option ℤ → ℤ
int_or_zero none = pos 0
int_or_zero (some i) = i

env_int : Option String → ℤ
unfolding int_or_zero
env_int none = pos 0
env_int (some v) = int_or_zero (atoi v)

is_positive : ℤ → Bool
is_positive (pos n) = ltb 0 n
is_positive (negsuc n) = false

is_nil : ℤ → Bool
is_nil (pos n) = eqb n 0
is_nil (negsuc n) = false

unfoldable pub get_int_value : Option String → ℤ → ℤ → ℤ
unfolding env_int is_positive is_nil
get_int_value env flag_val default_val =
    let res = if is_positive flag_val then flag_val else env_int env in
    if is_nil res then default_val else res

collect : Result ℤ → Result (List ℤ) → Result (List ℤ)
collect (err e) rest = err e
collect (ok i) (err e) = err e
collect (ok i) (ok is) = ok (i ∷ is)

parse_ints : List String → Result (List ℤ)
unfolding collect
parse_ints [] = ok []
parse_ints (s ∷ rest) = collect (parse_int s) (parse_ints rest)

-- For a separator of one character.
unfoldable pub string_to_int_array : String → ℕ → Result (List ℤ)
unfolding parse_ints
string_to_int_array l sep = if l == "" then ok [] else parse_ints (split sep l)
