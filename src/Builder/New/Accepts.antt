-- ===== src/Builder/New/Accepts.antt =====
-- What NewBuilder has made sure of when it returns a builder.
use d2vm.Base.{◌≤◌, ◌<◌, String, ◌≡◌, ◌⊎◌, true, false, ◌==◌, ok, any, eq_iff, if◌then◌else◌, arith}
use d2vm.Text.{to_lower}
use d2vm.Host.{Host, World}
use d2vm.Host.Yields.{Yields, Yields-pure, Yields-bind, Yields-bind_lift, Yields-bind_with}
use d2vm.OsRelease.{supports_luks}
use d2vm.BootFs.{is_supported}
use d2vm.BootFs
use d2vm.Bootloader.{Bootloader, grub_efi}
use d2vm.Bootloader
use d2vm.Bootloader.Laws.{RunsOn, new-RunsOn}
use d2vm.Builder.Defs.{Builder}
use d2vm.Builder.New.{
  Request, formats, arch_of, check_luks, check_format, check_boot_size, builder_of, new_builder,
}

-- A checked request: an encrypted disk has a boot partition of its own and a distribution that
-- can unlock it; a boot partition has at least 50 MiB and its number is below that of the disk
-- size; the format is one of the list, up to case, and vhd is called vpc; the boot file system is
-- known, and the boot loader accepts it.
pub record IsAccepted (q : Request) (b : Builder) : Type 0 where
  pub luks : (b.luks_password ≡ "") ⊎ ((b.split_boot ≡ true) × (supports_luks b.os_release ≡ true))
  pub boot_room : (b.split_boot ≡ false) ⊎ ((50 ≤ b.boot_size) × (b.boot_size < q.size))
  pub listed : any (λ v. v == to_lower q.format) formats ≡ true
  pub format : b.format ≡ (if to_lower q.format == "vhd" then "vpc" else to_lower q.format)
  pub boot_fs : is_supported b.boot_fs ≡ true
  pub known_arch : (b.arch ≡ "x86_64") ⊎ (b.arch ≡ "arm64")
  pub runs : RunsOn b.arch b.bootloader
  pub bootable : Bootloader.validate b.bootloader b.boot_fs ≡ ok tt

fs_checked :
    (fs : BootFs.BootFs) (u : Unit {0}) → BootFs.validate fs ≡ ok u → is_supported fs ≡ true
unfolding BootFs.validate
fs_checked fs u e = ground arith

module _ (q : Request) where
  luks_checked :
      (u : Unit {0})
      → check_luks q ≡ ok u
      → (q.luks_password ≡ "") ⊎ ((q.split_boot ≡ true) × (supports_luks q.os_release ≡ true))
  unfolding check_luks
  luks_checked u e = ground (arith, eq_iff q.luks_password "")

  boot_size_checked :
      (u : Unit {0})
      → check_boot_size q ≡ ok u
      → (q.split_boot ≡ false) ⊎ ((50 ≤ q.boot_size) × (q.boot_size < q.size))
  unfolding check_boot_size
  boot_size_checked u e = ground arith

  arch_known : (arch : String) → arch_of q.platform ≡ ok arch → (arch ≡ "x86_64") ⊎ (arch ≡ "arm64")
  unfolding arch_of
  arch_known arch e = ground arith

  format_checked :
      (f : String)
      → check_format q.format ≡ ok f
      → (any (λ v. v == to_lower q.format) formats ≡ true)
        × (f ≡ (if to_lower q.format == "vhd" then "vpc" else to_lower q.format))
  unfolding check_format
  format_checked f e = ground arith

  new_builder-Yields : {M : Type 0} → Yields {M = M} (IsAccepted q) (new_builder q)
  unfolding new_builder builder_of
  new_builder-Yields = Yields-bind_lift _ (arch_of q.platform) _ λ arch platform.
      Yields-bind_lift _ (check_luks q) _ λ u luks.
        Yields-bind_lift _ (check_format q.format) _ λ f format.
          Yields-bind_lift _ (check_boot_size q) _ λ v room. Yields-bind_lift _ _ _ λ c config.
            Yields-bind_lift _ _ _ λ x fs. Yields-bind_lift _ _ _ λ p found.
              Yields-bind_with _ (RunsOn arch) _ _ (new-RunsOn p _ _ arch) λ bl runs.
                Yields-bind_lift _ _ _ λ y valid. Yields-bind _ _ _ λ img. Yields-bind _ _ _ λ deps.
                  Yields-bind _ _ _ λ made. Yields-pure _ _ (record {
                    luks = luks_checked u luks;
                    boot_room = boot_size_checked v room;
                    listed = (format_checked f format).0;
                    format = (format_checked f format).1;
                    boot_fs = fs_checked _ x fs;
                    known_arch = arch_known arch platform;
                    runs = runs;
                    bootable = valid;
                  })

-- On every host, a builder that NewBuilder returns meets all that its request was checked for.
pub new_builder-IsAccepted :
    {M : Type 0} (h : Host) (w : World M) (q : Request) (b : Builder)
    → (new_builder q h w).0 ≡ ok b
    → IsAccepted q b
new_builder-IsAccepted h w q b e = (new_builder-Yields q).at h w b e
