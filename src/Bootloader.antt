-- ===== src/Bootloader.antt =====
-- bootloader.go: the interface Bootloader, its providers and their registry.
pub mod Grub
pub mod Syslinux
pub mod Laws
use d2vm.Base.{String, ◌<>◌, ◌==◌, List, [], ◌∷◌, Result, ok, err, if◌then◌else◌}
use d2vm.Host.{Exec, pure, lift, ◌>>=◌}
use d2vm.OsRelease.{OsRelease}
use d2vm.Config.{Config}
use d2vm.BootFs.{BootFs}
use Grub.{
  GrubCommon, setup_grub, setup_grub_bios, setup_grub_efi, validate_grub, validate_grub_efi,
  new_grub, new_grub_bios, new_grub_efi,
}
use Syslinux.{new_syslinux, setup_syslinux}

-- The types that implement the interface.
pub data Bootloader : Type 0 where
  syslinux : Syslinux.Syslinux → Bootloader
  grub : GrubCommon → Bootloader
  grub_bios : GrubCommon → Bootloader
  grub_efi : GrubCommon → String → Bootloader

unfoldable pub validate : Bootloader → BootFs → Result (Unit {0})
unfolding validate_grub validate_grub_efi
validate (syslinux s) fs = ok tt
validate (grub g) fs = validate_grub fs
validate (grub_bios g) fs = ok tt
validate (grub_efi g arch) fs = validate_grub_efi fs

unfoldable pub setup : {M : Type 0} → Bootloader → String → String → String → Exec M (Unit {0})
setup (syslinux s) dev root cmdline = setup_syslinux s dev root cmdline
setup (grub g) dev root cmdline = setup_grub g dev root cmdline
setup (grub_bios g) dev root cmdline = setup_grub_bios g dev root cmdline
setup (grub_efi g arch) dev root cmdline = setup_grub_efi arch g dev root cmdline

pub data BootloaderProvider : Type 0 where
  syslinux_provider grub_provider grub_bios_provider grub_efi_provider : BootloaderProvider

unfoldable pub name : BootloaderProvider → String
name syslinux_provider = "syslinux"
name grub_provider = "grub"
name grub_bios_provider = "grub-bios"
name grub_efi_provider = "grub-efi"

unfoldable pub new :
    {M : Type 0} → BootloaderProvider → Config → OsRelease → String → Exec M Bootloader
new syslinux_provider c r arch = do s ← new_syslinux c arch; pure (syslinux s)
new grub_provider c r arch = do g ← lift (new_grub c r arch); pure (grub g)
new grub_bios_provider c r arch = do g ← lift (new_grub_bios c r arch); pure (grub_bios g)
new grub_efi_provider c r arch = do (g, a) ← lift (new_grub_efi c r arch); pure (grub_efi g a)

-- The map bootloaderProviders; a later registration under a name hides an earlier one.
abbrev pub Registry : Type 0
Registry = List (String × BootloaderProvider)

unfoldable pub register_bootloader_provider : BootloaderProvider → Registry → Registry
unfolding name
register_bootloader_provider provider providers = (name provider, provider) ∷ providers

unfoldable pub bootloader_by_name_in : Registry → String → Result BootloaderProvider
bootloader_by_name_in [] key = err ("bootloader provider " <> (key <> " not found"))
bootloader_by_name_in ((k, p) ∷ providers) key =
    if k == key then ok p else bootloader_by_name_in providers key

-- The registry after the init functions of the package.
unfoldable pub bootloader_providers : Registry
unfolding register_bootloader_provider
bootloader_providers = register_bootloader_provider syslinux_provider (
    register_bootloader_provider grub_efi_provider (
      register_bootloader_provider grub_bios_provider
        (register_bootloader_provider grub_provider [])))

unfoldable pub bootloader_by_name : String → Result BootloaderProvider
unfolding bootloader_by_name_in bootloader_providers
bootloader_by_name key = bootloader_by_name_in bootloader_providers key
