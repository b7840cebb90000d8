-- ===== src/Bootloader/Laws.antt =====
-- The registry of providers, and what every boot loader's Setup leaves mounted.
use d2vm.Base.{String, ◌≡◌, refl, ok, ◌==◌, arith, eq_iff}
use d2vm.Host.Rules.{Balanced, balance_rules}
use d2vm.Host.Yields.{
  Yields, Yields-pure, Yields-raise, Yields-bind, Yields-bind_lift, Yields-bind_with,
}
use d2vm.Base.{◌⊎◌, inl, inr, Bool, true, false, Bool-cases}
use d2vm.Config.{Config}
use d2vm.OsRelease.{OsRelease}
use d2vm.Bootloader.{new}
use d2vm.Bootloader.Syslinux.{new_syslinux}
use d2vm.Bootloader.Grub.{new_grub, new_grub_bios}
use d2vm.Host.Mounts.{Held, held}
use d2vm.Bootloader.Grub.Mounts.{
  setup_grub-Balanced, setup_grub_bios-Balanced, setup_grub_efi-Balanced,
}
use d2vm.Bootloader.Syslinux.{setup_syslinux}
use d2vm.Bootloader.{
  Bootloader, syslinux, grub, grub_bios, grub_efi, setup, BootloaderProvider, syslinux_provider,
  grub_provider, grub_bios_provider, grub_efi_provider, name, bootloader_by_name,
}

-- Every provider is found under its own name.
pub bootloader_by_name-name : (p : BootloaderProvider) → bootloader_by_name (name p) ≡ ok p
unfolding bootloader_by_name name
bootloader_by_name-name syslinux_provider = refl
bootloader_by_name-name grub_provider = refl
bootloader_by_name-name grub_bios_provider = refl
bootloader_by_name-name grub_efi_provider = refl

-- A provider that is found has the name that it was looked up by.
pub name-bootloader_by_name :
    (key : String) (p : BootloaderProvider) → bootloader_by_name key ≡ ok p → name p ≡ key
unfolding bootloader_by_name name
name-bootloader_by_name key p e =
    ground (
      arith,
      eq_iff "syslinux" key,
      eq_iff "grub-efi" key,
      eq_iff "grub-bios" key,
      eq_iff "grub" key,
    )

-- On every path through Setup of every boot loader, on every host, a directory, a loop device, a
-- partition mapping or an opened encrypted partition is given back as often as it is taken.
pub setup-Balanced :
    {M : Type 0} (k : Held) (bl : Bootloader) (dev root cmdline : String)
    → Balanced (held k) {M = M} (setup bl dev root cmdline)
unfolding setup setup_syslinux
setup-Balanced k (syslinux s) dev root cmdline = search balance_rules
setup-Balanced k (grub g) dev root cmdline = setup_grub-Balanced k g dev root cmdline
setup-Balanced k (grub_bios g) dev root cmdline = setup_grub_bios-Balanced k g dev root cmdline
setup-Balanced k (grub_efi g arch) dev root cmdline =
    setup_grub_efi-Balanced k arch g dev root cmdline

abbrev pub is_grub_efi : Bootloader → Bool
is_grub_efi (grub_efi g arch) = true
is_grub_efi _ = false

abbrev pub RunsOn : String → Bootloader → Type 0
RunsOn arch bl = (arch ≡ "x86_64") ⊎ (is_grub_efi bl ≡ true)

-- A boot loader for another machine than x86_64 is GRUB with EFI.
pub new-RunsOn :
    {M : Type 0} (p : BootloaderProvider) (c : Config) (r : OsRelease) (arch : String)
    → Yields {M = M} (RunsOn arch) (new p c r arch)
unfolding new new_syslinux new_grub new_grub_bios
new-RunsOn {M} syslinux_provider c r arch = elim (Bool-cases (arch == "x86_64")) [
  | inl x86 ↦ Yields-bind _ _ _ λ s. Yields-pure _ _ (inl ((eq_iff _ _).0 x86))
  | inr other ↦ rw other (Yields-bind_with _ (λ _. ⊥) _ _ (Yields-raise _ _) λ s h. absurd h)
]
new-RunsOn grub_provider c r arch =
    Yields-bind_lift _ _ _ λ g e. Yields-pure _ _ (inl (ground (arith, eq_iff arch "x86_64")))
new-RunsOn grub_bios_provider c r arch =
    Yields-bind_lift _ _ _ λ g e. Yields-pure _ _ (inl (ground (arith, eq_iff arch "x86_64")))
new-RunsOn grub_efi_provider c r arch = Yields-bind _ _ _ λ (g, a). Yields-pure _ _ (inr refl)
