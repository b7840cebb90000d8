-- ===== src/Docker/Laws.antt =====
-- The file name that an image's name gives.
use d2vm.Base.{Bool-cases, inl, inr}
use d2vm.Base.{ℕ, Char, code, String, ◌≡◌, refl, Bool, false, ◌||◌, eqb, arith}
use Prim.Native.String.{char_at}
use d2vm.Text.{replace_char}
use d2vm.Docker.{format_img_name}

abbrev pub has_code : ℕ → String → Bool
has_code n String.[] = false
has_code n (String.◌∷◌ c s) = eqb (code c) n || has_code n s

tail_free : (a b : Bool) → (a || b) ≡ false → (a ≡ false) × (b ≡ false)
tail_free a b e = ground arith

-- A character that is replaced is gone, and no other one that was not the new one appears.
replaced :
    (old : ℕ) (new : Char) (s : String)
    → eqb (code new) old ≡ false
    → has_code old (replace_char old new s) ≡ false
unfolding replace_char
replaced old new String.[] p = refl
replaced old new (String.◌∷◌ c s) p =
    let ih = replaced old new s p in
    elim (Bool-cases (eqb (code c) old)) [
      | inl same ↦ rw (same, p, ih)
      | inr other ↦ rw (other, other, ih)
    ]

kept :
    (n old : ℕ) (new : Char) (s : String)
    → eqb (code new) n ≡ false
    → has_code n s ≡ false
    → has_code n (replace_char old new s) ≡ false
unfolding replace_char
kept n old new String.[] p q = refl
kept n old new (String.◌∷◌ c s) p q = elim (Bool-cases (eqb (code c) old)) [
  | inl same ↦
      let ih = kept n old new s p (tail_free (eqb (code c) n) (has_code n s) q).1 in
      rw (same, p, ih)
  | inr other ↦
      let ih = kept n old new s p (tail_free (eqb (code c) n) (has_code n s) q).1 in
      rw (other, (tail_free (eqb (code c) n) (has_code n s) q).0, ih)
]

-- The name that an image's file gets is one element of a path, and names no other tag.
pub format_img_name-one_element :
    (name : String)
    → (has_code b'/' (format_img_name name) ≡ false)
      × (has_code b':' (format_img_name name) ≡ false)
unfolding format_img_name
format_img_name-one_element name =
    let dashed = replace_char b':' (char_at "-" 0) name in
    (
      replaced b'/' (char_at "_" 0) dashed refl,
      kept b':' b'/' (char_at "_" 0) dashed refl (replaced b':' (char_at "-" 0) name refl),
    )
