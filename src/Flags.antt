-- ===== src/Flags.antt =====
-- cmd/d2vm/flags.go: the flags of the commands build and convert.
pub mod Laws
pub mod Hosts
pub mod Maps
use d2vm.Base.{
  ℕ, String, ◌<>◌, Bool, true, false, not, ◌&&◌, ◌||◌, ◌==◌, Option, none, some, List, [], ◌∷◌,
  Result, ok, err, if◌then◌else◌,
}
use d2vm.Text.{cut}
use d2vm.Host.{Exec, stat, pure, raise, lift, asks, ◌>>=◌, ◌>>◌, handling, system}
use d2vm.BootFs.{is_supported}

-- The package's variables that validateFlags reads or assigns.
pub record Flags : Type 0 where
  pub platform : String
  pub bootloader : String
  pub luks_password : String
  pub split_boot : Bool
  pub boot_fs : String
  pub push : Bool
  pub tag : String
  pub output : String
  pub force : Bool
  pub hosts : List String
  pub extra_hosts : List (String × String)

abbrev default_bootloader : String → Flags → Flags
default_bootloader name f = record f {
  bootloader = if f.bootloader == "" then name else f.bootloader;
}

-- The switch on the platform.
unfoldable pub check_platform : Flags → Result Flags
check_platform f =
    if f.platform == "linux/amd64"
    then ok (default_bootloader "syslinux" f)
    else if f.platform == "linux/arm64" || f.platform == "linux/aarch64"
    then (let g = default_bootloader "grub-efi" (record f { platform = "linux/arm64" }) in
        if not (g.bootloader == "grub-efi")
        then err (
            "unsupported bootloader for platform "
            <> (g.platform <> (": " <> (g.bootloader <> ", only grub-efi is supported"))))
        else ok g)
    else err (
        "unexpected platform: "
        <> (f.platform <> ", supported platforms: linux/amd64, linux/arm64"))

-- `if test { splitBoot = true }`
abbrev split_if : Bool → Flags → Flags
split_if test f = record f { split_boot = f.split_boot || test }

abbrev is_efi : Flags → Bool
is_efi f = f.bootloader == "grub-efi" || f.bootloader == "grub"

-- From the test of the LUKS password to that of the pushed tag.
unfoldable pub check_boot : Flags → Result Flags
check_boot f =
    let f₁ = split_if (not (f.luks_password == "")) f in
    if not (f₁.boot_fs == "") && not (is_supported f₁.boot_fs)
    then err ("invalid boot filesystem: " <> f₁.boot_fs)
    else let f₂ = split_if (is_efi f₁) (split_if (not (f₁.boot_fs == "")) f₁) in
      if is_efi f₂ && not (f₂.boot_fs == "") && not (f₂.boot_fs == "fat32")
      then err "grub-efi bootloader only supports fat32 boot filesystem"
      else let f₃ = record f₂ {
        boot_fs = if is_efi f₂ && (f₂.boot_fs == "") then "fat32" else f₂.boot_fs;
      } in
        if f₃.push && (f₃.tag == "")
        then err "tag is required when pushing container disk image"
        else ok f₃

-- A Go map as its pairs: a key that is there already gets the new value.
unfoldable pub insert : String → String → List (String × String) → List (String × String)
insert k v [] = (k, v) ∷ []
insert k v ((j, w) ∷ m) = if j == k then (k, v) ∷ m else (j, w) ∷ insert k v m

host_entry : String → Option (String × String) → Result (String × String)
host_entry val none = err ("bad format for add-host: \"" <> (val <> "\""))
host_entry val (some (k, v)) =
    if k == "" then err ("bad format for add-host: \"" <> (val <> "\"")) else ok (k, v)

add_entries : List String → List (String × String) → Result (List (String × String))
unfolding host_entry
add_entries [] out = ok out
add_entries (val ∷ vals) out = elim (host_entry val (cut b':' val)) [
  | err e ↦ err e
  | ok (k, v) ↦ add_entries vals (insert k v out)
]

unfoldable pub validate_hosts : List String → Result (List (String × String))
unfolding add_entries insert
validate_hosts vals = add_entries vals []

-- The test whether the output is there already.
check_output : {M : Type 0} → Flags → Exec M (Unit {0})
check_output f =
    handling (system (stat f.output))
      (λ _. if not f.force then raise (f.output <> " already exists") else pure tt)
      (λ e. do
        absent ← asks (λ h. h.is_not_exist e)
        if not absent && not f.force then raise (f.output <> " already exists") else pure tt)

abbrev with_hosts : Flags → Result (List (String × String)) → Result Flags
with_hosts f (ok hosts) = ok (record f { extra_hosts = hosts })
with_hosts f (err e) = err ("invalid --add-host value: " <> e)

unfoldable pub validate_flags : {M : Type 0} → Flags → Exec M Flags
unfolding check_output
validate_flags f = do
  f₁ ← lift (check_platform f)
  f₂ ← lift (check_boot f₁)
  check_output f₂
  lift (with_hosts f₂ (validate_hosts f₂.hosts))
