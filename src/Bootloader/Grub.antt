-- ===== src/Bootloader/Grub.antt =====
-- grub_common.go, grub.go, grub_bios.go and grub_efi.go.
pub mod Mounts
pub mod Names
use d2vm.Base.{String, ◌<>◌, not, ◌||◌, ◌==◌, List, [], ◌∷◌, ◌++◌, Result, ok, err, if◌then◌else◌}
use d2vm.Text.Paths.{join_path}
use d2vm.Host.{
  Exec, mkdir_all, write_file, pure, raise, ◌>>=◌, ◌>>◌, deferring, attempt, handling, system_, run,
}
use d2vm.Release
use d2vm.OsRelease.{OsRelease}
use d2vm.Config.{Config}
use d2vm.BootFs.{BootFs, boot_fs_fat32}

grub_cfg : String → String
grub_cfg cmdline =
    "GRUB_DEFAULT=0\nGRUB_HIDDEN_TIMEOUT=0\nGRUB_HIDDEN_TIMEOUT_QUIET=true\nGRUB_TIMEOUT=0\nGRUB_CMDLINE_LINUX_DEFAULT=\""
    <> (cmdline <> "\"\nGRUB_CMDLINE_LINUX=\"\"\nGRUB_TERMINAL=console\n")

pub record GrubCommon : Type 0 where
  pub name : String
  pub c : Config
  pub r : OsRelease
  pub root : String
  pub dev : String

unfoldable pub new_grub_common : Config → OsRelease → GrubCommon
new_grub_common c r = record {
  name = if r.id == "centos" then "grub2" else "grub";
  c = c;
  r = r;
  root = "";
  dev = "";
}

-- The function `clean` that prepare returns: the errors of umount are only logged.
unfoldable pub clean : {M : Type 0} → String → List String → Exec M (Unit {0})
clean root [] = pure tt
clean root (v ∷ unmounts) =
    attempt (run "umount" (join_path (root ∷ v ∷ []) ∷ [])) (λ _. clean root unmounts)

-- The loop of prepare. When a mount fails, what is mounted so far is cleaned up.
unfoldable pub bind_mounts :
    {M : Type 0} → String → List String → List String → Exec M (List String)
unfolding clean
bind_mounts root [] unmounts = pure unmounts
bind_mounts root (v ∷ mounts) unmounts =
    handling (run "mount" ("-o" ∷ "bind" ∷ ("/" <> v) ∷ join_path (root ∷ v ∷ []) ∷ []))
      (λ _. bind_mounts root mounts (unmounts ++ v ∷ [])) (λ e. clean root unmounts >> raise e)

-- The new value of the receiver, and what `clean` has to unmount.
unfoldable pub prepare :
    {M : Type 0} → GrubCommon → String → String → String → Exec M (GrubCommon × List String)
unfolding grub_cfg
prepare g dev root cmdline = do
  system_ (write_file (join_path (root ∷ "etc" ∷ "default" ∷ "grub" ∷ [])) (grub_cfg cmdline) 0o644)
  system_ (mkdir_all (join_path (root ∷ "boot" ∷ g.name ∷ [])) 0o777)
  unmounts ← bind_mounts root ("dev" ∷ "proc" ∷ "sys" ∷ []) []
  pure (record g { dev = dev; root = root }, unmounts)

unfoldable pub install : {M : Type 0} → GrubCommon → List String → Exec M (Unit {0})
install g args =
    if g.dev == "" || g.root == ""
    then raise "grubCommon not prepared"
    else run "chroot" (g.root ∷ (g.name <> "-install") ∷ args)

unfoldable pub mkconfig : {M : Type 0} → GrubCommon → Exec M (Unit {0})
mkconfig g =
    if g.dev == "" || g.root == ""
    then raise "grubCommon not prepared"
    else run "chroot"
        (g.root ∷ (g.name <> "-mkconfig") ∷ "-o" ∷ ("/boot/" <> (g.name <> "/grub.cfg")) ∷ [])

-- What the three Setup methods have in common: `clean` is deferred once prepare has succeeded.
prepared :
    {M : Type 0}
    → GrubCommon
    → String
    → String
    → String
    → (GrubCommon → Exec M (Unit {0}))
    → Exec M (Unit {0})
prepared g dev root cmdline body = do
  (g', unmounts) ← prepare g dev root cmdline
  deferring (clean root unmounts) (body g')

-- grub: both kinds of boot.
unfoldable pub setup_grub : {M : Type 0} → GrubCommon → String → String → String → Exec M (Unit {0})
unfolding prepared
setup_grub g dev root cmdline = prepared g dev root cmdline λ g'. do
  install g' (
      "--target=x86_64-efi" ∷ "--efi-directory=/boot" ∷ "--no-nvram" ∷ "--removable" ∷ "--no-floppy"
      ∷ [])
  install g' ("--target=i386-pc" ∷ "--boot-directory=/boot" ∷ dev ∷ [])
  mkconfig g'

unfoldable pub setup_grub_bios :
    {M : Type 0} → GrubCommon → String → String → String → Exec M (Unit {0})
unfolding prepared
setup_grub_bios g dev root cmdline =
    prepared g dev root cmdline
      λ g'. do install g' ("--target=i386-pc" ∷ "--boot-directory=/boot" ∷ dev ∷ []); mkconfig g'

unfoldable pub setup_grub_efi :
    {M : Type 0} → String → GrubCommon → String → String → String → Exec M (Unit {0})
unfolding prepared
setup_grub_efi arch g dev root cmdline = prepared g dev root cmdline λ g'. do
  install g' (
      ("--target=" <> (arch <> "-efi"))
      ∷ "--efi-directory=/boot"
      ∷ "--no-nvram"
      ∷ "--removable"
      ∷ "--no-floppy"
      ∷ [])
  mkconfig g'

unfoldable pub validate_grub : BootFs → Result (Unit {0})
validate_grub fs =
    if fs == boot_fs_fat32
    then ok tt
    else err "grub only supports fat32 boot filesystem due to grub-efi"

unfoldable pub validate_grub_efi : BootFs → Result (Unit {0})
validate_grub_efi fs =
    if fs == boot_fs_fat32 then ok tt else err "grub-efi only supports fat32 boot filesystem"

-- The New methods of the three providers.
unfoldable pub new_grub : Config → OsRelease → String → Result GrubCommon
unfolding new_grub_common
new_grub c r arch =
    if not (arch == "x86_64")
    then err "grub is only supported for amd64"
    else if r.id == Release.centos || r.id == Release.rocky || r.id == Release.almalinux
    then err "grub (efi) is not supported for CentOS / Rocky / AlmaLinux, use grub-bios instead"
    else ok (new_grub_common c r)

unfoldable pub new_grub_bios : Config → OsRelease → String → Result GrubCommon
unfolding new_grub_common
new_grub_bios c r arch =
    if not (arch == "x86_64")
    then err "grub-bios is only supported for amd64"
    else ok (new_grub_common c r)

unfoldable pub new_grub_efi : Config → OsRelease → String → Result (GrubCommon × String)
unfolding new_grub_common
new_grub_efi c r arch =
    if r.id == Release.centos || r.id == Release.rocky || r.id == Release.almalinux
    then err "grub-efi is not supported for CentOS, use grub-bios instead"
    else ok (new_grub_common c r, arch)
