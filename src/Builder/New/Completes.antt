-- ===== src/Builder/New/Completes.antt =====
-- NewBuilder on a host where no call fails.
use d2vm.Base.{
  ◌≤◌, ◌<◌, String, ◌≡◌, refl, ◌⊎◌, inl, inr, true, false, ◌==◌, List, [], ◌∷◌, ok, Bool-cases,
  Result-cases, arith,
}
use d2vm.Host.{Host, World, ◌>>=◌, pure, handling, system, stat, look_path}
use d2vm.Host.Healthy.{Healthy, Succeeds, succeed_rules, Succeeds-system_}
use d2vm.Host.Gives.{Gives, Gives-pure, Gives-bind, Gives-then, Gives-lift_then}
use d2vm.OsRelease.{OsRelease, supported, supports_luks}
use d2vm.OsRelease.Laws.{config-supported}
use d2vm.Config.{Config, config}
use d2vm.BootFs
use d2vm.BootFs.{is_supported}
use d2vm.Bootloader
use d2vm.Bootloader.{Bootloader, syslinux, syslinux_provider, bootloader_by_name}
use d2vm.Bootloader.Syslinux.{Syslinux, find_mbr, found, new_syslinux}
use d2vm.Image.{new_image}
use d2vm.Docker.{image_save, cmd}
use d2vm.Builder.Defs.{Builder}
use d2vm.Builder.New.{
  Request, new_builder, builder_of, arch_of, check_luks, check_format, check_boot_size, default_to,
  check_dependencies, missing, combine, dependencies,
}

-- What a request for SYSLINUX needs to pass the checks of NewBuilder.
pub record Passes (q : Request) : Type 0 where
  pub platform : q.platform ≡ "linux/amd64"
  pub luks :
      ((q.luks_password == "") ≡ true)
      ⊎ ((q.split_boot ≡ true) × (supports_luks q.os_release ≡ true))
  pub format : (f : String) × (check_format q.format ≡ ok f)
  pub boot_size : (q.split_boot ≡ false) ⊎ ((50 ≤ q.boot_size) × (q.boot_size < q.size))
  pub release : supported q.os_release.id ≡ true
  pub boot_fs : ((q.boot_fs == "") ≡ true) ⊎ (is_supported q.boot_fs ≡ true)
  pub boot_loader : (q.boot_loader ≡ "") ⊎ (q.boot_loader ≡ "syslinux")

module _ (q : Request) (p : Passes q) where
  arch_lem : arch_of q.platform ≡ ok "x86_64"
  unfolding arch_of
  arch_lem = rw p.platform refl

  luks_lem : check_luks q ≡ ok tt
  unfolding check_luks
  luks_lem = elim p.luks [ inl none ↦ rw none refl | inr (split, supports) ↦ ground arith ]

  boot_size_lem : check_boot_size q ≡ ok tt
  unfolding check_boot_size
  boot_size_lem = elim p.boot_size [ inl none ↦ rw none refl | inr (least, most) ↦ ground arith ]

  config_lem : (c : Config) × (config q.os_release ≡ ok c)
  config_lem = elim (Result-cases (config q.os_release)) [
    | inl found ↦ found
    | inr (x, e) ↦ ground (arith, config-supported q.os_release, p.release)
  ]

  boot_fs_lem : BootFs.validate (default_to "ext4" q.boot_fs) ≡ ok tt
  unfolding BootFs.validate
  boot_fs_lem = elim p.boot_fs [
    | inl none ↦ rw none refl
    | inr known ↦ elim (Bool-cases (q.boot_fs == "")) [
      | inl none ↦ rw none refl
      | inr some ↦ rw some (rw known refl)
    ]
  ]

  boot_loader_lem : bootloader_by_name (default_to "syslinux" q.boot_loader) ≡ ok syslinux_provider
  unfolding bootloader_by_name
  boot_loader_lem = elim p.boot_loader [ inl none ↦ rw none refl | inr named ↦ rw named refl ]

abbrev IsSyslinux : Bootloader → Type 0
IsSyslinux bl = (s : Syslinux) × (bl ≡ syslinux s)

-- Whatever the file system of the boot partition, SYSLINUX does not reject it.
validate-IsSyslinux :
    (bl : Bootloader) (fs : BootFs.BootFs) → IsSyslinux bl → Bootloader.validate bl fs ≡ ok tt
unfolding Bootloader.validate
validate-IsSyslinux bl fs (s, e) = rw e refl

abbrev pub HasSyslinux : Builder → Type 0
HasSyslinux b = IsSyslinux b.bootloader

module _ (h : Host) (healthy : Healthy h) {M : Type 0} where
  new_syslinux-Succeeds : (c : Config) → Succeeds h {M = M} (new_syslinux c "x86_64")
  unfolding new_syslinux find_mbr found handling system pure ◌>>=◌
  new_syslinux-Succeeds c = record {
    at = λ w.
        let (s, e) = healthy.system w.log (stat "/usr/lib/syslinux/mbr/mbr.bin") in rw e (_, refl);
  }

  missing-none : (deps : List String) (w : World M) → (missing deps h w).0 ≡ ok []
  unfolding missing handling system pure
  missing-none [] w = refl
  missing-none (v ∷ deps) w = rw (healthy.system w.log (look_path v)).1 (missing-none deps _)

  check_dependencies-Succeeds : (bl : Bootloader) → Succeeds h {M = M} (check_dependencies bl)
  unfolding check_dependencies combine pure ◌>>=◌
  check_dependencies-Succeeds bl = record {
    at = λ w. rw (missing-none (dependencies bl) w) (tt, refl);
  }

  new_image-Succeeds : (tag path : String) → Succeeds h {M = M} (new_image tag path)
  unfolding new_image image_save cmd
  new_image-Succeeds tag path = search succeed_rules depth 12

  new-IsSyslinux :
      (c : Config) (r : OsRelease)
      → Gives h {M = M} IsSyslinux (Bootloader.new syslinux_provider c r "x86_64")
  unfolding Bootloader.new
  new-IsSyslinux c r =
      Gives-then h IsSyslinux _ _ (new_syslinux-Succeeds c)
        λ s. Gives-pure h IsSyslinux (syslinux s) (s, refl)

  -- On a host where no call fails, NewBuilder returns a builder with SYSLINUX for each request that
  -- passes its checks.
  pub new_builder-Gives : (q : Request) → Passes q → Gives h {M = M} HasSyslinux (new_builder q)
  unfolding new_builder builder_of
  new_builder-Gives q p =
      let (f, is_format) = p.format in
      let (c, is_config) = config_lem q p in
      Gives-lift_then h HasSyslinux _ _ _ (arch_lem q p) (
        Gives-lift_then h HasSyslinux _ _ _ (luks_lem q p) (
          Gives-lift_then h HasSyslinux _ _ _ is_format (
            Gives-lift_then h HasSyslinux _ _ _ (boot_size_lem q p) (
              Gives-lift_then h HasSyslinux _ _ _ is_config (
                Gives-lift_then h HasSyslinux _ _ _ (boot_fs_lem q p) (
                  Gives-lift_then h HasSyslinux _ _ _ (boot_loader_lem q p) (
                    Gives-bind h HasSyslinux IsSyslinux _ _ (new-IsSyslinux _ q.os_release)
                      λ bl has. Gives-lift_then h HasSyslinux _ _ _ (validate-IsSyslinux bl _ has) (
                        Gives-then h HasSyslinux _ _ (new_image-Succeeds q.img_tag q.workdir) λ img.
                          Gives-then h HasSyslinux _ _ (check_dependencies-Succeeds bl) λ _.
                            Gives-then h HasSyslinux _ _ (Succeeds-system_ h healthy _)
                              λ _. Gives-pure h HasSyslinux _ has))))))))
