-- ===== src/Commands/Requests.antt =====
-- What validateFlags has checked, NewBuilder does not refuse.
use d2vm.Base.{
  ℕ, String, ◌≡◌, refl, sym, ap, ◌∙◌, ◌⊎◌, inl, inr, Bool, false, ◌==◌, ok, Bool-cases,
  if◌then◌else◌,
}
use d2vm.Host.{Host, World}
use d2vm.OsRelease.{OsRelease, supports_luks}
use d2vm.BootFs
use d2vm.BootFs.{is_supported}
use d2vm.ConvertOptions.{zero_options, apply}
use d2vm.Builder.New.{Request, arch_of, check_luks}
use d2vm.Convert.{request_of}
use d2vm.Flags.{Flags, validate_flags}
use d2vm.Flags.Laws.{IsConsistent, validate_flags-IsConsistent}
use d2vm.Commands.{CommandFlags, options_of}
use d2vm.Commands.Options.{apply-options_of}

-- Of the checks that NewBuilder makes of a request: the platform is known, and for arm64 the boot
-- loader is grub-efi; the test for LUKS fails only where the distribution does not support it; and
-- the boot file system is valid.
pub record IsBuildable (q : Request) : Type 0 where
  pub platform :
      (arch_of q.platform ≡ ok "x86_64")
      ⊎ ((arch_of q.platform ≡ ok "arm64") × (q.boot_loader ≡ "grub-efi"))
  pub luks : (check_luks q ≡ ok tt) ⊎ (supports_luks q.os_release ≡ false)
  pub boot_fs : BootFs.validate (if q.boot_fs == "" then "ext4" else q.boot_fs) ≡ ok tt

-- The request has the flags' values.
abbrev HasFlags : Request → Flags → Type 0
HasFlags q f =
    (q.platform ≡ f.platform)
    × (q.luks_password ≡ f.luks_password)
    × (q.split_boot ≡ f.split_boot)
    × (q.boot_fs ≡ f.boot_fs)
    × (q.boot_loader ≡ f.bootloader)

module _ (q : Request) (f : Flags) (c : IsConsistent f) (same : HasFlags q f) where
  platform_lem :
      (arch_of q.platform ≡ ok "x86_64")
      ⊎ ((arch_of q.platform ≡ ok "arm64") × (q.boot_loader ≡ "grub-efi"))
  unfolding arch_of
  platform_lem = elim c.platform [
    | inl amd64 ↦ inl (rw (same.0 ∙ amd64) refl)
    | inr (arm64, efi) ↦ inr (rw (same.0 ∙ arm64) refl, same.4 ∙ efi)
  ]

  luks_lem : (check_luks q ≡ ok tt) ⊎ (supports_luks q.os_release ≡ false)
  unfolding check_luks
  luks_lem = elim (Bool-cases (supports_luks q.os_release)) [
    | inr missing ↦ inr missing
    | inl supports ↦ inl (elim c.luks [
      | inl none ↦ rw (ap (λ s. s == "") same.1 ∙ none) refl
      | inr split ↦ elim (Bool-cases (q.luks_password == "")) [
        | inl none ↦ rw none refl
        | inr set ↦ rw set (rw (same.2 ∙ split) (rw supports refl))
      ]
    ])
  ]

  boot_fs_lem : BootFs.validate (if q.boot_fs == "" then "ext4" else q.boot_fs) ≡ ok tt
  unfolding BootFs.validate
  boot_fs_lem = elim (Bool-cases (q.boot_fs == "")) [
    | inl none ↦ rw none refl
    | inr set ↦ rw set (elim c.boot_fs [
      | inl none ↦ let both = sym set ∙ (ap (λ s. s == "") same.3 ∙ none) in absurd (cc)
      | inr (known, split) ↦ rw (ap is_supported same.3 ∙ known) refl
    ])
  ]

module _ (c : CommandFlags) (f : Flags) (size : ℕ) (pull : Bool) (r : OsRelease)
    (tmp_path img_uuid : String) where
  abbrev asked : Request
  asked = request_of (apply (options_of c f size pull) zero_options) r tmp_path img_uuid

  asked_lem :
      (asked.platform ≡ f.platform)
      × (asked.luks_password ≡ f.luks_password)
      × (asked.split_boot ≡ f.split_boot)
      × (asked.boot_fs ≡ f.boot_fs)
      × (asked.boot_loader ≡ f.bootloader)
  unfolding request_of
  asked_lem = rw (apply-options_of c f size pull) (refl, refl, refl, refl, refl)

  -- For flags that validateFlags has accepted, what Convert asks NewBuilder for has a platform that
  -- is known, with grub-efi for arm64, and a boot file system that is valid; and the test for LUKS
  -- fails only where the distribution does not support it.
  pub validate_flags-IsBuildable :
      {M : Type 0} (h : Host) (w : World M) (f₀ : Flags)
      → (validate_flags f₀ h w).0 ≡ ok f
      → IsBuildable asked
  validate_flags-IsBuildable h w f₀ accepted =
      let fits = validate_flags-IsConsistent f₀ f h w accepted in
      let same = asked_lem in
      record {
        platform = platform_lem asked f fits same;
        luks = luks_lem asked f fits same;
        boot_fs = boot_fs_lem asked f fits same;
      }
