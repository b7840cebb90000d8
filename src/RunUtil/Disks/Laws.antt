-- ===== src/RunUtil/Disks/Laws.antt =====
-- The flag --disk is read the way that it is written.
use Prim.Native.String.{char_at}
use d2vm.Base.{
  ℕ, ◌<◌, ◌^◌, String, ◌<>◌, ◌≡◌, refl, ap, true, List, [], ◌∷◌, ◌++◌, Result, ok, inl, arith,
}
use d2vm.Text.{join}
use d2vm.Text.Numbers.{pos, decimal}
use d2vm.Text.Numbers.RoundTrip.{decimal-free}
use d2vm.Text.Splits.{is_free, is_free-append, split-join, split_in_two-append}
use d2vm.Qemu.Config.{Disk}
use d2vm.RunUtil.Sizes.Laws.{size_in-M}
use d2vm.RunUtil.Disks.{no_disk, disk_field, next_field, fields, append_disk, set_disks, set_size}

-- A part of the flag's value.
abbrev pub setting : String → String → String
setting key value = key <> ("=" <> value)

setting-free :
    (key value : String)
    → is_free b',' key ≡ true
    → is_free b',' value ≡ true
    → is_free b',' (setting key value) ≡ true
setting-free key value f g =
    is_free-append b',' key ("=" <> value) f (is_free-append b',' "=" value refl g)

next_field-setting :
    {D : Type 0} (field : D → List String → Result D) (d : D) (key value : String)
    → is_free b'=' key ≡ true
    → next_field field (ok d) (setting key value) ≡ field d (key ∷ value ∷ [])
unfolding next_field
next_field-setting field d key value f =
    ap (field d) (split_in_two-append (char_at "=" 0) key value f)

abbrev pub disk_settings : String → ℕ → String → List String
disk_settings path n format =
    setting "file" path ∷ setting "size" (decimal n <> "M") ∷ setting "format" format ∷ []

-- A path and a format without commas and a size below 2^63 MB are read as the disk that they
-- describe, which is put behind the disks that there are.
pub set_disks-settings :
    (l : List Disk) (path format : String) (n : ℕ)
    → is_free b',' path ≡ true
    → is_free b',' format ≡ true
    → n < 2 ^ 63
    → set_disks l (join (disk_settings path n format) ",")
      ≡ ok (l ++ (record { path = path; size = pos n; format = format } ∷ []))
unfolding set_disks fields disk_field append_disk set_size
set_disks-settings l path format n f g h =
    rw
      (split-join (char_at "," 0) (setting "file" path)
        (setting "size" (decimal n <> "M") ∷ setting "format" format ∷ [])
        (
          setting-free "file" path refl f,
          (
            setting-free "size" (decimal n <> "M") refl (
                is_free-append b',' (decimal n) "M" (decimal-free b',' n (inl (omega arith))) refl),
            (setting-free "format" format refl g, tt),
          ),
        ))
      (rw (next_field-setting disk_field no_disk "file" path refl) (
        rw
          (next_field-setting disk_field (record no_disk { path = path }) "size" (decimal n <> "M")
            refl)
          (rw (size_in-M n h) (
            rw
              (next_field-setting disk_field (record { path = path; size = pos n; format = "" })
                "format" format refl)
              refl))))
