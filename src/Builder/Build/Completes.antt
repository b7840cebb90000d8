-- ===== src/Builder/Build/Completes.antt =====
-- A build on a host where no call fails.
use d2vm.Base.{◌≡◌, refl, String, List, [], ◌∷◌, ok}
use d2vm.Host.{Host, World, Exec, ◌>>=◌, handling, run}
use d2vm.Host.Healthy.{
  Healthy, Succeeds, succeed_rules, Succeeds-pure, Succeeds-handling, Succeeds-run,
}
use d2vm.Files.{move_file, wrap, block}
use d2vm.Image.{flatten}
use d2vm.Bootloader
use d2vm.Bootloader.{Bootloader, syslinux, grub, grub_bios, grub_efi}
use d2vm.Bootloader.Syslinux.{Syslinux, setup_syslinux}
use d2vm.Builder.New.{combine}
use d2vm.Host.{pure, gets}
use d2vm.Builder.Defs.{Builder, Devices}
use d2vm.Builder.Disk.{
  clean_up, make_img, mount_img, unmount_img, convert_to_img, run_each, unmount_commands,
}
use d2vm.Builder.RootFs.{
  copy_root_fs, make_fstab, disk_uuid, setup_root_fs, install_bootloader, ch_write_file,
  ch_write_file_if_not_exist,
}
use d2vm.Builder.Build.{build, steps}

module _ (h : Host) (healthy : Healthy h) where
  pub wrap-Succeeds :
      {M A : Type 0} (prefix : String) (m : Exec M A) → Succeeds h m → Succeeds h (wrap prefix m)
  unfolding wrap
  wrap-Succeeds prefix m p = search succeed_rules

  pub move_file-Succeeds : {M : Type 0} (s d : String) → Succeeds h {M = M} (move_file s d)
  unfolding move_file
  move_file-Succeeds s d = search (succeed_rules, wrap-Succeeds) depth 12

  flatten-Succeeds : (b : Builder) → Succeeds h {M = Devices} (flatten b.img b.mnt_point)
  unfolding flatten
  flatten-Succeeds b = search succeed_rules depth 12

  module _ (b : Builder) where
    make_img-Succeeds : Succeeds h (make_img b)
    unfolding make_img block
    make_img-Succeeds = search succeed_rules depth 12

    mount_img-Succeeds : Succeeds h (mount_img b)
    unfolding mount_img
    mount_img-Succeeds = search succeed_rules depth 20

    convert_to_img-Succeeds : Succeeds h (convert_to_img b)
    unfolding convert_to_img
    convert_to_img-Succeeds = search (succeed_rules, move_file-Succeeds)

    setup_root_fs-Succeeds : Succeeds h (setup_root_fs b)
    unfolding setup_root_fs make_fstab disk_uuid ch_write_file ch_write_file_if_not_exist
    setup_root_fs-Succeeds = search succeed_rules depth 20

    clean_up-Succeeds : Succeeds h (clean_up b)
    unfolding clean_up
    clean_up-Succeeds = search succeed_rules

  run_each-none :
      {M : Type 0} (commands : List (String × List String)) (w : World M)
      → (run_each commands h w).0 ≡ ok []
  unfolding run_each handling pure
  run_each-none [] w = refl
  run_each-none ((c, args) ∷ commands) w =
      rw ((Succeeds-run h healthy c args).at w).1 (run_each-none commands (run c args h w).1)

  unmount_img-Succeeds : (b : Builder) → Succeeds h (unmount_img b)
  unfolding unmount_img combine gets pure ◌>>=◌
  unmount_img-Succeeds b = record {
    at = λ w. rw (run_each-none (unmount_commands b w.mem) w) (tt, refl);
  }

  syslinux-Succeeds :
      {M : Type 0} (s : Syslinux) (dev root cmdline : String)
      → Succeeds h {M = M} (setup_syslinux s dev root cmdline)
  unfolding setup_syslinux
  syslinux-Succeeds s dev root cmdline = search succeed_rules depth 12

  steps-Succeeds : (b : Builder) (s : Syslinux) → b.bootloader ≡ syslinux s → Succeeds h (steps b)
  unfolding steps install_bootloader copy_root_fs Bootloader.setup
  steps-Succeeds b s e = rw e (
      search
        (
          succeed_rules, clean_up-Succeeds, make_img-Succeeds, mount_img-Succeeds, flatten-Succeeds,
          setup_root_fs-Succeeds, syslinux-Succeeds, unmount_img-Succeeds, convert_to_img-Succeeds,
        )
        depth 20)

  -- On a host where no call fails, a build with SYSLINUX succeeds, whatever the processes print.
  pub build-ok :
      (b : Builder) (s : Syslinux) (w : World Devices)
      → b.bootloader ≡ syslinux s
      → (build b h w).0 ≡ ok tt
  unfolding build
  build-ok b s w e =
      ((Succeeds-handling h (steps b) (λ _. pure tt) _ (steps-Succeeds b s e)
          λ u. Succeeds-pure h tt).at
        w).1
