-- ===== src/Builder/Disk.antt =====
-- makeImg, mountImg, unmountImg, convert2Img and cleanUp.
pub mod Mounts
pub mod Takes
use d2vm.Base.{String, ◌<>◌, Bool, not, ◌==◌, List, [], ◌∷◌, ◌++◌, Result, ok, err, if◌then◌else◌}
use d2vm.Text.{trim_suffix}
use d2vm.Text.Numbers.{decimal}
use d2vm.Text.Paths.{join_path, base}
use d2vm.Host.{
  Exec, mkdir_all, create_temp, write_string, close_file, remove, remove_all, pure, ◌>>=◌, ◌>>◌,
  deferring, handling, system, system_, new_uuid_text, gets, modify, run_out, run,
}
use d2vm.BootFs.{is_fat}
use d2vm.Files.{block, move_file}
use d2vm.Builder.Defs.{Builder, Devices, is_luks_enabled, if_else}
use d2vm.Builder.New.{combine}

unfoldable pub clean_up : Builder → Exec Devices (Unit {0})
clean_up b = system_ (remove_all b.disk_raw)

-- The partition table: with split boot a boot partition up to bootSize, and the rest.
unfoldable pub parted_args : Builder → List String
parted_args b =
    let at = decimal b.boot_size <> "Mib" in
    if b.split_boot
    then "-s" ∷ b.disk_raw ∷ "mklabel" ∷ "msdos" ∷ "mkpart" ∷ "primary" ∷ "1Mib" ∷ at ∷ "mkpart"
      ∷ "primary" ∷ at ∷ "100%" ∷ "set" ∷ "1" ∷ "boot" ∷ "on" ∷ []
    else "-s" ∷ b.disk_raw ∷ "mklabel" ∷ "msdos" ∷ "mkpart" ∷ "primary" ∷ "1Mib" ∷ "100%" ∷ "set"
      ∷ "1" ∷ "boot" ∷ "on" ∷ []

unfoldable pub make_img : Builder → Exec Devices (Unit {0})
make_img b = do block b.disk_raw b.size; run "parted" (parted_args b)

-- The partitions that kpartx maps for the loop device.
name_partitions : Builder → Devices → Devices
name_partitions b d =
    let part = "/dev/mapper/" <> base d.lo_device in
    record d {
      boot_part = part <> "p1";
      root_part = if_else b.split_boot (part <> "p2") (part <> "p1");
    }

attach_loop : Builder → Exec Devices (Unit {0})
unfolding name_partitions if_else
attach_loop b = do
  (o, _) ← run_out "losetup" ("--show" ∷ "-f" ∷ b.disk_raw ∷ [])
  modify (λ d. record d { lo_device = trim_suffix o "\n" })
  lo ← gets (λ d. d.lo_device)
  run "kpartx" ("-a" ∷ lo ∷ [])
  modify (name_partitions b)

-- The root partition with LUKS, once the key file is there.
mount_crypt_root : Builder → String → Exec Devices (Unit {0})
mount_crypt_root b key = do
  system_ (write_string key b.luks_password)
  root_part ← gets (λ d. d.root_part)
  run "cryptsetup" ("luksFormat" ∷ "--batch-mode" ∷ "--type" ∷ "luks2" ∷ root_part ∷ key ∷ [])
  uuid ← new_uuid_text
  modify (λ d. record d { crypt_root = "d2vm-" <> (uuid <> "-root") })
  crypt_root ← gets (λ d. d.crypt_root)
  run "cryptsetup" ("open" ∷ "--key-file" ∷ key ∷ root_part ∷ crypt_root ∷ [])
  let mapped = join_path ("/dev/mapper" ∷ crypt_root ∷ [])
  modify (λ d. record d {
    crypt_part = root_part;
    root_part = "/dev/mapper/root";
    mapped_crypt_root = mapped;
  })
  run "mkfs.ext4" (mapped ∷ [])
  run "mount" (mapped ∷ b.mnt_point ∷ [])

mount_plain_root : Builder → Exec Devices (Unit {0})
mount_plain_root b = do
  root_part ← gets (λ d. d.root_part)
  run "mkfs.ext4" (root_part ∷ [])
  run "mount" (root_part ∷ b.mnt_point ∷ [])

abbrev pub boot_dir : Builder → String
boot_dir b = join_path (b.mnt_point ∷ "boot" ∷ [])

make_boot_fs : Builder → String → Exec Devices (Unit {0})
make_boot_fs b boot_part =
    if is_fat b.boot_fs
    then run "mkfs.fat" ("-F32" ∷ boot_part ∷ [])
    else run "mkfs.ext4" (boot_part ∷ [])

mount_boot : Builder → Exec Devices (Unit {0})
unfolding make_boot_fs
mount_boot b = if not b.split_boot then pure tt else do
  system_ (mkdir_all (boot_dir b) 0o777)
  boot_part ← gets (λ d. d.boot_part)
  make_boot_fs b boot_part
  run "mount" (boot_part ∷ boot_dir b ∷ [])

-- The key file is removed and closed when mountImg returns, so after the boot partition is mounted.
unfoldable pub mount_img : Builder → Exec Devices (Unit {0})
unfolding attach_loop mount_crypt_root mount_plain_root mount_boot
mount_img b = do
  attach_loop b
  if is_luks_enabled b
      then (do
        key ← system (create_temp "" "key")
        deferring (system_ (close_file key))
            (deferring (system_ (remove key)) (do mount_crypt_root b key; mount_boot b)))
      else (do mount_plain_root b; mount_boot b)

-- Every command is run, whatever came of those before it; the errors are collected.
unfoldable pub run_each : {M : Type 0} → List (String × List String) → Exec M (List String)
run_each [] = pure []
run_each ((c, args) ∷ commands) =
    handling (run c args) (λ _. run_each commands)
      (λ e. do errors ← run_each commands; pure (e ∷ errors))

unfoldable pub unmount_commands : Builder → Devices → List (String × List String)
unmount_commands b d =
    (if b.split_boot then ("umount", boot_dir b ∷ []) ∷ [] else [])
    ++ ((("umount", b.mnt_point ∷ []) ∷ [])
        ++ ((if is_luks_enabled b
              then ("cryptsetup", "close" ∷ d.mapped_crypt_root ∷ []) ∷ []
              else [])
            ++ (("kpartx", "-d" ∷ d.lo_device ∷ []) ∷ ("losetup", "-d" ∷ d.lo_device ∷ []) ∷ [])))

unfoldable pub unmount_img : Builder → Exec Devices (Unit {0})
unmount_img b = do d ← gets (λ d. d); errors ← run_each (unmount_commands b d); combine errors

unfoldable pub convert_to_img : Builder → Exec Devices (Unit {0})
convert_to_img b =
    if b.format == "raw"
    then move_file b.disk_raw b.disk_out
    else run "qemu-img" ("convert" ∷ b.disk_raw ∷ "-O" ∷ b.format ∷ b.disk_out ∷ [])
