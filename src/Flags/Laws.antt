-- ===== src/Flags/Laws.antt =====
-- What validateFlags has made sure of, and that NewBuilder's boot loader agrees.
use mathlib.Core.Path.{subst}
use d2vm.Base.{
  String, ◌≡◌, refl, ◌⊎◌, inl, inr, true, false, ◌==◌, List, Result, ok, err, eq_iff, if◌then◌else◌,
  arith,
}
use d2vm.Host.{Host, World}
use d2vm.Host.{stat}
use d2vm.Flags.{check_output}
use d2vm.Host.Rules.{Resource, Quiet, Balanced, balance_rules}
use d2vm.Host.Yields.{Yields, Yields-pure, Yields-bind, Yields-bind_lift, Yields-lift}
use d2vm.BootFs.{is_supported, is_fat, is_ext}
use d2vm.Config.{Config}
use d2vm.OsRelease.{OsRelease}
use d2vm.Bootloader.Grub.{validate_grub, validate_grub_efi}
use d2vm.Bootloader.Laws.{name-bootloader_by_name}
use d2vm.Bootloader.{
  Bootloader, syslinux, grub, grub_bios, grub_efi, validate, new, BootloaderProvider,
  syslinux_provider, grub_provider, grub_bios_provider, grub_efi_provider, name, bootloader_by_name,
}
use d2vm.Flags.{Flags, check_platform, check_boot, is_efi, with_hosts, validate_flags}

-- Flags that fit together: the platform is one of two, and arm64 has grub-efi; a LUKS password, a
-- boot file system or a boot loader with EFI each come with split boot; the boot file system is
-- empty or known, and fat32 for a boot loader with EFI.
pub record IsConsistent (f : Flags) : Type 0 where
  pub platform :
      (f.platform ≡ "linux/amd64") ⊎ ((f.platform ≡ "linux/arm64") × (f.bootloader ≡ "grub-efi"))
  pub bootloader : (f.bootloader == "") ≡ false
  pub luks : ((f.luks_password == "") ≡ true) ⊎ (f.split_boot ≡ true)
  pub boot_fs :
      ((f.boot_fs == "") ≡ true) ⊎ ((is_supported f.boot_fs ≡ true) × (f.split_boot ≡ true))
  pub efi : (is_efi f ≡ false) ⊎ ((f.boot_fs ≡ "fat32") × (f.split_boot ≡ true))

abbrev OnPlatform : Flags → Type 0
OnPlatform f =
    ((f.platform ≡ "linux/amd64") ⊎ ((f.platform ≡ "linux/arm64") × (f.bootloader ≡ "grub-efi")))
    × ((f.bootloader == "") ≡ false)

grub_efi_set : (s : String) → s ≡ "grub-efi" → (s == "") ≡ false
grub_efi_set s e = rw e

syslinux_set : (s : String) → s ≡ "syslinux" → (s == "") ≡ false
syslinux_set s e = rw e

check_platform-OnPlatform : (f g : Flags) → check_platform f ≡ ok g → OnPlatform g
unfolding check_platform
check_platform-OnPlatform f g e = ground (
  arith,
  eq_iff f.platform "linux/amd64",
  eq_iff f.bootloader "",
  eq_iff f.bootloader "grub-efi",
  grub_efi_set g.bootloader,
  syslinux_set g.bootloader,
  eq_iff g.bootloader "grub-efi",
)

check_boot-keeps :
    (f g : Flags) → check_boot f ≡ ok g → (g.platform ≡ f.platform) × (g.bootloader ≡ f.bootloader)
unfolding check_boot
check_boot-keeps f g e = ground arith

check_boot-luks :
    (f g : Flags) → check_boot f ≡ ok g → ((g.luks_password == "") ≡ true) ⊎ (g.split_boot ≡ true)
unfolding check_boot
check_boot-luks f g e = ground arith

check_boot-boot_fs :
    (f g : Flags)
    → check_boot f ≡ ok g
    → ((g.boot_fs == "") ≡ true) ⊎ ((is_supported g.boot_fs ≡ true) × (g.split_boot ≡ true))
unfolding check_boot is_supported is_fat is_ext
check_boot-boot_fs f g e = ground (
  arith,
  eq_iff f.boot_fs "fat32",
  eq_iff f.boot_fs "",
  eq_iff g.boot_fs "",
  eq_iff g.boot_fs "fat32",
)

check_boot-efi :
    (f g : Flags)
    → check_boot f ≡ ok g
    → (is_efi g ≡ false) ⊎ ((g.boot_fs ≡ "fat32") × (g.split_boot ≡ true))
unfolding check_boot
check_boot-efi f g e = ground (arith, eq_iff f.boot_fs "fat32")

ok_injective : {A : Type 0} {a b : A} → ok a ≡ ok b → a ≡ b
ok_injective e = cc

with_hosts-IsConsistent :
    (f g : Flags) (hosts : Result (List (String × String)))
    → with_hosts f hosts ≡ ok g
    → IsConsistent f
    → IsConsistent g
with_hosts-IsConsistent f g (ok hosts) e c = subst IsConsistent (ok_injective e) (record {
  platform = c.platform;
  bootloader = c.bootloader;
  luks = c.luks;
  boot_fs = c.boot_fs;
  efi = c.efi;
})
with_hosts-IsConsistent f g (err x) e c = cc

checked : (f g k : Flags) → check_platform f ≡ ok g → check_boot g ≡ ok k → IsConsistent k
checked f g k e d =
    let (p, n) = check_platform-OnPlatform f g e in
    let (same_p, same_b) = check_boot-keeps g k d in
    record {
      platform = ground arith;
      bootloader = rw (same_b, n);
      luks = check_boot-luks g k d;
      boot_fs = check_boot-boot_fs g k d;
      efi = check_boot-efi g k d;
    }

-- Flags that validateFlags accepts, on every host, fit together.
pub validate_flags-IsConsistent :
    {M : Type 0} (f g : Flags) (h : Host) (w : World M)
    → (validate_flags f h w).0 ≡ ok g
    → IsConsistent g
unfolding validate_flags
validate_flags-IsConsistent {M} f g h w e = all_paths.at h w g e
  where
    all_paths : Yields {M = M} IsConsistent (validate_flags f)
    all_paths = Yields-bind_lift _ _ _ λ f₁ e₁. Yields-bind_lift _ _ _ λ f₂ e₂.
        Yields-bind _ _ _
          λ u. Yields-lift _ _ λ k d. with_hosts-IsConsistent f₂ k _ d (checked f f₁ f₂ e₁ e₂)

abbrev provider_of : Bootloader → BootloaderProvider
provider_of (syslinux s) = syslinux_provider
provider_of (grub g) = grub_provider
provider_of (grub_bios g) = grub_bios_provider
provider_of (grub_efi g arch) = grub_efi_provider

new-provider :
    {M : Type 0} (p : BootloaderProvider) (c : Config) (r : OsRelease) (arch : String)
    → Yields {M = M} (λ bl. provider_of bl ≡ p) (new p c r arch)
unfolding new
new-provider syslinux_provider c r arch = Yields-bind _ _ _ λ s. Yields-pure _ _ refl
new-provider grub_provider c r arch = Yields-bind _ _ _ λ g. Yields-pure _ _ refl
new-provider grub_bios_provider c r arch = Yields-bind _ _ _ λ g. Yields-pure _ _ refl
new-provider grub_efi_provider c r arch = Yields-bind _ _ _ λ (g, a). Yields-pure _ _ refl

-- The file system of the boot partition that NewBuilder takes for the flags.
abbrev pub fs_of : Flags → String
fs_of f = if f.boot_fs == "" then "ext4" else f.boot_fs

needs_fat : (f : Flags) → IsConsistent f → is_efi f ≡ true → fs_of f ≡ "fat32"
needs_fat f c e = elim c.efi [ inl other ↦ cc | inr (fat, _) ↦ rw fat ]

consistent-validate :
    (f : Flags) (bl : Bootloader)
    → IsConsistent f
    → name (provider_of bl) ≡ f.bootloader
    → validate bl (fs_of f) ≡ ok tt
unfolding validate validate_grub validate_grub_efi name
consistent-validate f (syslinux s) c e = refl
consistent-validate f (grub g) c e =
    rw (needs_fat f c (ground (arith, eq_iff f.bootloader "grub", eq_iff f.bootloader "grub-efi")))
consistent-validate f (grub_bios g) c e = refl
consistent-validate f (grub_efi g arch) c e =
    rw (needs_fat f c (ground (arith, eq_iff f.bootloader "grub", eq_iff f.bootloader "grub-efi")))

-- The boot loader that NewBuilder makes for flags that validateFlags has accepted does not reject
-- the boot file system that NewBuilder takes for them: the two checks agree.
pub validate-validate_flags :
    {M : Type 0} (f g : Flags) (h : Host) (w : World M) (p : BootloaderProvider) (bl : Bootloader)
    (c : Config) (r : OsRelease) (arch : String) (h₁ : Host) (w₁ : World M)
    → (validate_flags f h w).0 ≡ ok g
    → bootloader_by_name g.bootloader ≡ ok p
    → (new p c r arch h₁ w₁).0 ≡ ok bl
    → validate bl (fs_of g) ≡ ok tt
validate-validate_flags f g h w p bl c r arch h₁ w₁ accepted found made =
    consistent-validate g bl (validate_flags-IsConsistent f g h w accepted) (
      rw ((new-provider p c r arch).at h₁ w₁ bl made, name-bootloader_by_name g.bootloader p found))

-- Checking the flags takes and gives back nothing of a resource that the test of the output's
-- existence does not touch.
pub validate_flags-Balanced :
    {R : Resource} {M : Type 0} (f : Flags)
    → ((path : String) → Quiet R (stat path))
    → Balanced R {M = M} (validate_flags f)
unfolding validate_flags check_output
validate_flags-Balanced f q = search (balance_rules, q) depth 9
