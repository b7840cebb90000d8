-- ===== src/Builder/RootFs/Laws.antt =====
-- Filling the root file system and installing the boot loader give back all that they take.
use d2vm.Base.{String}
use d2vm.Host.{Exec}
use d2vm.Host.Rules.{Balanced, balance_rules}
use d2vm.Host.Mounts.{Held, held}
use d2vm.Bootloader.Laws.{setup-Balanced}
use d2vm.Image.{flatten}
use d2vm.Builder.Defs.{Builder, Devices}
use d2vm.Builder.RootFs.{
  copy_root_fs, disk_uuid, assign, ch_write_file, ch_write_file_if_not_exist, make_fstab,
  setup_alpine, setup_root_fs, install_bootloader,
}

module _ (k : Held) where
  pub copy_root_fs-Balanced : (b : Builder) → Balanced (held k) (copy_root_fs b)
  unfolding copy_root_fs flatten
  copy_root_fs-Balanced b = search balance_rules depth 9

  disk_uuid-Balanced : (disk : String) → Balanced (held k) (disk_uuid disk)
  unfolding disk_uuid
  disk_uuid-Balanced disk = search balance_rules

  assign-Balanced :
      (set : String → Devices → Devices) (m : Exec Devices String)
      → Balanced (held k) m
      → Balanced (held k) (assign set m)
  unfolding assign
  assign-Balanced set m b = search balance_rules

  ch_write_file-Balanced :
      (b : Builder) (path content : String) → Balanced (held k) (ch_write_file b path content)
  unfolding ch_write_file
  ch_write_file-Balanced b path content = search balance_rules

  ch_write_file_if_not_exist-Balanced :
      (b : Builder) (path content : String)
      → Balanced (held k) (ch_write_file_if_not_exist b path content)
  unfolding ch_write_file_if_not_exist
  ch_write_file_if_not_exist-Balanced b path content =
      search (balance_rules, ch_write_file-Balanced)

  make_fstab-Balanced : (b : Builder) → Balanced (held k) (make_fstab b)
  unfolding make_fstab
  make_fstab-Balanced b = search (balance_rules, assign-Balanced, disk_uuid-Balanced) depth 9

  setup_alpine-Balanced : (b : Builder) → Balanced (held k) (setup_alpine b)
  unfolding setup_alpine
  setup_alpine-Balanced b =
      search (balance_rules, ch_write_file-Balanced, ch_write_file_if_not_exist-Balanced)

  pub setup_root_fs-Balanced : (b : Builder) → Balanced (held k) (setup_root_fs b)
  unfolding setup_root_fs
  setup_root_fs-Balanced b =
      search (balance_rules, make_fstab-Balanced, ch_write_file-Balanced, setup_alpine-Balanced)
        depth 12

  pub install_bootloader-Balanced : (b : Builder) → Balanced (held k) (install_bootloader b)
  unfolding install_bootloader
  install_bootloader-Balanced b = search (balance_rules, setup-Balanced)
