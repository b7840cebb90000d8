-- ===== src/RunUtil/Sizes/Laws.antt =====
-- What sizes mean, and where an int overflows.
use d2vm.Base.{
  ℕ, ◌+◌, ◌*◌, ◌/◌, ◌≢◌, ◌==◌, eq_iff, Bool-cases, ◌≤◌, ◌<◌, ◌^◌, String, ◌<>◌, ◌≡◌, refl, ap, true,
  false, some, List, [], ◌∷◌, map, All, ok, ltb, if◌then◌else◌, arith, inl, inr,
}
use Prim.Native.String.{char_at}
use text.Mathlib.TextLemmas.{cons-ne-nil, append-ne-nil_of_right_ne-nil, append-eq-nil_iff}
use d2vm.Text.{strip_suffix?, join}
use d2vm.Text.Numbers.{ℤ, pos, decimal, scan}
use d2vm.Text.Numbers.RoundTrip.{atoi-decimal, decimal-strip, decimal-free, decimal-ne-nil}
use d2vm.Text.Suffixes.{strip_suffix?-append, strip_suffix?-none}
use d2vm.Text.Splits.{is_free, split-join}
use d2vm.Files.{to_int64}
use d2vm.RunUtil.Sizes.{
  wrap_int, times_1024, parse_int, get_disk_size_mb, mb_size, gb_size, in_mb, over_1024,
  convert_mb_to_gb, get_int_value, string_to_int_array, parse_ints,
}

parse_int-decimal : (n : ℕ) → n < 2 ^ 63 → parse_int (decimal n) ≡ ok (pos n)
unfolding parse_int
parse_int-decimal n h = rw (atoi-decimal n h, parse_int) refl

wrap_int-small : (n : ℕ) → n < 2 ^ 63 → wrap_int (pos n) ≡ pos n
unfolding wrap_int to_int64
wrap_int-small n h = ground arith

nonempty : (s : String) → s ≢ "" → (s == "") ≡ false
nonempty s h = elim (Bool-cases (s == "")) [ inl e ↦ absurd (h ((eq_iff s "").0 e)) | inr e ↦ e ]

in_mb-small : (n : ℕ) → n < 2 ^ 53 → in_mb (parse_int (decimal n)) ≡ ok (pos (1024 * n))
unfolding in_mb times_1024
in_mb-small n h =
    rw (parse_int-decimal n (omega arith)) (ap ok (wrap_int-small (1024 * n) (omega arith)))

pub size_in-M : (n : ℕ) → n < 2 ^ 63 → get_disk_size_mb (decimal n <> "M") ≡ ok (pos n)
unfolding get_disk_size_mb mb_size
size_in-M n h =
    rw (nonempty (decimal n <> "M") (append-ne-nil_of_right_ne-nil (decimal n) (cons-ne-nil _ _)))
      (rw (strip_suffix?-append (decimal n) "M") (parse_int-decimal n h))

size_in-G : (n : ℕ) → n < 2 ^ 53 → get_disk_size_mb (decimal n <> "G") ≡ ok (pos (1024 * n))
unfolding get_disk_size_mb mb_size gb_size strip_suffix?
size_in-G n h =
    rw (nonempty (decimal n <> "G") (append-ne-nil_of_right_ne-nil (decimal n) (cons-ne-nil _ _))) (
      rw (strip_suffix?-none (decimal n) "G" "M" refl (omega arith))
        (rw (strip_suffix?-append (decimal n) "G") (in_mb-small n h)))

size_in-none : (n : ℕ) → n < 2 ^ 53 → get_disk_size_mb (decimal n) ≡ ok (pos (1024 * n))
unfolding get_disk_size_mb mb_size gb_size scan
size_in-none n h =
    rw (nonempty (decimal n) (decimal-ne-nil n))
      (rw (decimal-strip "M" n λ n. refl) (rw (decimal-strip "G" n λ n. refl) (in_mb-small n h)))

-- Below 2^53 a size in MB is the number with the suffix M, and 1024 times the number with the
-- suffix G or with none.
pub get_disk_size_mb_lem :
    (n : ℕ)
    → n < 2 ^ 53
    → (get_disk_size_mb (decimal n <> "M") ≡ ok (pos n))
      × (get_disk_size_mb (decimal n <> "G") ≡ ok (pos (1024 * n)))
      × (get_disk_size_mb (decimal n) ≡ ok (pos (1024 * n)))
get_disk_size_mb_lem n h = (size_in-M n (omega arith), size_in-G n h, size_in-none n h)

convert_mb_to_gb-ceiling :
    (n : ℕ)
    → n + 1024 < 2 ^ 63
    → convert_mb_to_gb (pos n) ≡ pos (if ltb 0 n then (n + 1023) / 1024 else 1)
unfolding convert_mb_to_gb wrap_int to_int64 over_1024
convert_mb_to_gb-ceiling n h = ground arith

-- From MB to GB a size below 2^63 - 1024 becomes the least number of GB that holds it and is at
-- least 1.
pub convert_mb_to_gb_lem :
    (n : ℕ)
    → n + 1024 < 2 ^ 63
    → (g : ℕ) × (convert_mb_to_gb (pos n) ≡ pos g)
      × (1 ≤ g)
      × (n ≤ 1024 * g)
      × ((k : ℕ) → 1 ≤ k → n ≤ 1024 * k → g ≤ k)
convert_mb_to_gb_lem n h = (
  if ltb 0 n then (n + 1023) / 1024 else 1,
  convert_mb_to_gb-ceiling n h,
  ground arith,
  ground arith,
  λ k one le. ground arith,
)

-- A positive flag wins over the environment, and a number there that is not 0 over the default.
pub get_int_value_lem :
    (n m : ℕ) (default_val : ℤ)
    → n < 2 ^ 63
    → get_int_value (some (decimal n)) (pos m) default_val
      ≡ (if ltb 0 m then pos m else if ltb 0 n then pos n else default_val)
unfolding get_int_value
get_int_value_lem n m default_val h = rw (atoi-decimal n h, get_int_value) (ground arith)

parse_ints-decimal :
    (ns : List ℕ) → All (λ n. n < 2 ^ 63) ns → parse_ints (map decimal ns) ≡ ok (map pos ns)
unfolding parse_ints
parse_ints-decimal [] h = refl
parse_ints-decimal (n ∷ ns) (h, hs) =
    rw (parse_int-decimal n h) (rw (parse_ints-decimal ns hs) refl)

All-free : (ns : List ℕ) → All (λ s. is_free b',' s ≡ true) (map decimal ns)
All-free [] = tt
All-free (n ∷ ns) = (decimal-free b',' n (inl (omega arith)), All-free ns)

join-ne-nil : (n : ℕ) (ns : List ℕ) → join (map decimal (n ∷ ns)) "," ≢ ""
unfolding join
join-ne-nil n [] e = decimal-ne-nil n e
join-ne-nil n (m ∷ ns) e = decimal-ne-nil n ((append-eq-nil_iff.0 e).0)

-- Numbers below 2^63 that are printed with commas between them are read back.
pub string_to_int_array-join :
    (n : ℕ) (ns : List ℕ)
    → All (λ n. n < 2 ^ 63) (n ∷ ns)
    → string_to_int_array (join (map decimal (n ∷ ns)) ",") b',' ≡ ok (map pos (n ∷ ns))
unfolding string_to_int_array
string_to_int_array-join n ns h =
    rw (nonempty (join (map decimal (n ∷ ns)) ",") (join-ne-nil n ns)) (
      rw (split-join (char_at "," 0) (decimal n) (map decimal ns) (All-free (n ∷ ns)))
        (parse_ints-decimal (n ∷ ns) h))
