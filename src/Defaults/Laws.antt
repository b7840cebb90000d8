-- ===== src/Defaults/Laws.antt =====
-- What becomes of a command line without flags.
use d2vm.Base.{
  ◌<>◌, String, ◌≡◌, refl, ◌⊎◌, inl, inr, true, false, ◌==◌, [], ok, err, if◌then◌else◌,
}
use d2vm.Host.{Host, World, ◌>>=◌, pure, raise, lift, asks, handling, system, stat}
use d2vm.Flags.{Flags, check_platform, check_boot, validate_hosts, validate_flags}
use d2vm.Defaults.{arch, checked_flags}

-- The flags, completed for an architecture.
abbrev pub completed : String → Flags → Flags
completed goarch f =
    if goarch == "amd64"
    then record f { bootloader = "syslinux" }
    else record f { bootloader = "grub-efi"; split_boot = true; boot_fs = "fat32" }

-- The default flags on that platform.
on : String → String → Flags
unfolding checked_flags
on platform uuid = record {
  platform = platform;
  bootloader = "";
  luks_password = "";
  split_boot = false;
  boot_fs = "";
  push = false;
  tag = "d2vm-" <> uuid;
  output = "disk0.qcow2";
  force = false;
  hosts = [];
  extra_hosts = [];
}

module _ {M : Type 0} (h : Host) (w : World M) (uuid e : String) where
  on_amd64 :
      h.system w.log (stat "disk0.qcow2") ≡ err e
      → h.is_not_exist e ≡ true
      → (validate_flags (on "linux/amd64" uuid) h w).0
        ≡ ok (record (on "linux/amd64" uuid) { bootloader = "syslinux" })
  unfolding on validate_flags check_platform check_boot validate_hosts handling ◌>>=◌ pure raise
      lift asks system
  on_amd64 none absent = rw none (rw absent refl)

  on_arm64 :
      h.system w.log (stat "disk0.qcow2") ≡ err e
      → h.is_not_exist e ≡ true
      → (validate_flags (on "linux/arm64" uuid) h w).0
        ≡ ok (record (on "linux/arm64" uuid) {
          bootloader = "grub-efi";
          split_boot = true;
          boot_fs = "fat32";
        })
  unfolding on validate_flags check_platform check_boot validate_hosts handling ◌>>=◌ pure raise
      lift asks system
  on_arm64 none absent = rw none (rw absent refl)

module _ {M : Type 0} (h : Host) (w : World M) (uuid e : String) where
  on_linux :
      (goos goarch : String)
      → goos ≡ "linux"
      → (goarch ≡ "amd64") ⊎ (goarch ≡ "arm64")
      → h.system w.log (stat "disk0.qcow2") ≡ err e
      → h.is_not_exist e ≡ true
      → (validate_flags (on (goos <> ("/" <> goarch)) uuid) h w).0
        ≡ ok (completed goarch (on (goos <> ("/" <> goarch)) uuid))
  unfolding on
  on_linux goos goarch os (inl a) none absent = rw os (rw a (on_amd64 h w uuid e none absent))
  on_linux goos goarch os (inr a) none absent = rw os (rw a (on_arm64 h w uuid e none absent))

  -- On Linux on amd64 or arm64, where the default output is not there yet, validateFlags accepts
  -- the default flags: with SYSLINUX on amd64, and on arm64 with GRUB for EFI, a boot partition
  -- of its own and FAT32 on it.
  pub checked_flags-accepted :
      h.goos ≡ "linux"
      → (h.goarch ≡ "amd64") ⊎ (h.goarch ≡ "arm64")
      → h.system w.log (stat "disk0.qcow2") ≡ err e
      → h.is_not_exist e ≡ true
      → (validate_flags (checked_flags h uuid) h w).0
        ≡ ok (completed h.goarch (checked_flags h uuid))
  unfolding checked_flags arch on
  checked_flags-accepted = on_linux h.goos h.goarch
