-- ===== src/Builder/RootFs.antt =====
-- copyRootFS, setupRootFS, cmdline and installBootloader.
pub mod Laws
pub mod Names
use d2vm.Base.{
  String, ◌<>◌, Bool, not, ◌||◌, ◌==◌, Option, none, some, List, [], ◌∷◌, Result, ok, err, eqb,
  if◌then◌else◌,
}
use d2vm.Text.{join, trim_suffix}
use d2vm.Host.{
  Exec, read_file, write_file, remove_all, stat, pure, lift, ◌>>=◌, ◌>>◌, handling, system, system_,
  stat_size, gets, modify, run_out,
}
use d2vm.Release
use d2vm.Config
use d2vm.Config.{root_uuid}
use d2vm.BootFs.{linux}
use d2vm.Bootloader
use d2vm.Image.{flatten}
use d2vm.Builder.Defs.{Builder, Devices, is_luks_enabled, ch_path, if_else}

unfoldable pub copy_root_fs : Builder → Exec Devices (Unit {0})
copy_root_fs b = flatten b.img b.mnt_point

unfoldable pub disk_uuid : String → Exec Devices String
disk_uuid disk = do
  (o, _) ← run_out "blkid" ("-s" ∷ "UUID" ∷ "-o" ∷ "value" ∷ disk ∷ [])
  pure (trim_suffix o "\n")

-- `b.field, err = …` with the return that follows an error: the field is assigned in both cases.
assign : (String → Devices → Devices) → Exec Devices String → Exec Devices (Unit {0})
assign set m = handling m (λ v. modify (set v)) (λ e. do modify (set ""); lift (err e))

unfoldable pub ch_write_file : Builder → String → String → Exec Devices (Unit {0})
ch_write_file b path content = system_ (write_file (ch_path b path) content 0o644)

-- A file that is there and not empty is left alone.
unfoldable pub ch_write_file_if_not_exist : Builder → String → String → Exec Devices (Unit {0})
ch_write_file_if_not_exist b path content =
    handling (system (stat (ch_path b path)))
      (λ _. do
        size ← stat_size (ch_path b path)
        if eqb size 0 then ch_write_file b path content else pure tt)
      (λ _. ch_write_file b path content)

name_servers : List String → String
name_servers [] = ""
name_servers (v ∷ dns) = "nameserver " <> (v <> ("\n" <> name_servers dns))

search_line : List String → String
search_line [] = ""
search_line (domain ∷ domains) = "search " <> (join (domain ∷ domains) " " <> "\n")

unfoldable pub resolv_conf : Builder → String
unfolding name_servers search_line
resolv_conf b = name_servers b.dns <> search_line b.dns_search

root_line : String → String
root_line uuid = "UUID=" <> (uuid <> " / ext4 errors=remount-ro 0 1\n")

-- The UUIDs are read, and the text of /etc/fstab is made from them.
unfoldable pub make_fstab : Builder → Exec Devices String
unfolding root_line assign
make_fstab b = do
  d ← gets (λ d. d)
  assign (λ v d. record d { root_uuid = v })
      (disk_uuid (if_else (is_luks_enabled b) d.mapped_crypt_root d.root_part))
  if b.split_boot
      then (do
        assign (λ v d. record d { boot_uuid = v }) (disk_uuid d.boot_part)
        if is_luks_enabled b
            then assign (λ v d. record d { crypt_uuid = v }) (disk_uuid d.crypt_part)
            else pure tt
        d' ← gets (λ d. d)
        pure (
            root_line d'.root_uuid
            <> ("UUID="
                <> (d'.boot_uuid
                    <> (" /boot " <> (linux b.boot_fs <> " errors=remount-ro 0 2\n"))))))
      else (do
        modify (λ d. record d { boot_uuid = d.root_uuid })
        d' ← gets (λ d. d)
        pure (root_line d'.boot_uuid))

-- Alpine gets a console on the serial line, and a file of network interfaces.
setup_alpine : Builder → Exec Devices (Unit {0})
setup_alpine b = do
  by ← system (read_file (ch_path b "/etc/inittab"))
  ch_write_file b "/etc/inittab" (by <> "\nttyS0::respawn:/sbin/getty -L ttyS0 115200 vt100\n")
  ch_write_file_if_not_exist b "/etc/network/interfaces" ""

unfoldable pub setup_root_fs : Builder → Exec Devices (Unit {0})
unfolding setup_alpine
setup_root_fs b = do
  fstab ← make_fstab b
  ch_write_file b "/etc/fstab" fstab
  ch_write_file b "/etc/resolv.conf" (resolv_conf b)
  ch_write_file b "/etc/hostname" (b.hostname <> "\n")
  ch_write_file b "/etc/hosts" b.hosts
  system_ (remove_all "/usr/sbin/policy-rc.d")
  system_ (remove_all (ch_path b "/.dockerenv"))
  if b.os_release.id == Release.alpine then setup_alpine b else pure tt

unfoldable pub cmdline : Builder → Devices → String
cmdline b d =
    if not (is_luks_enabled b)
    then Config.cmdline b.config (some (root_uuid d.root_uuid)) (b.cmd_line_extra ∷ [])
    else if b.os_release.id == Release.alpine
    then Config.cmdline b.config (some (root_uuid d.root_uuid)) (
        "root=/dev/mapper/root"
        ∷ "cryptdm=root"
        ∷ ("cryptroot=UUID=" <> d.crypt_uuid)
        ∷ b.cmd_line_extra
        ∷ [])
    else if b.os_release.id == Release.centos
        || b.os_release.id == Release.rocky
        || b.os_release.id == Release.almalinux
    then Config.cmdline b.config (some (root_uuid d.root_uuid)) (
        ("rd.luks.name=UUID="
          <> (d.root_uuid <> (" rd.luks.uuid=" <> (d.crypt_uuid <> " rd.luks.crypttab=0"))))
        ∷ b.cmd_line_extra
        ∷ [])
    else Config.cmdline b.config none (
        "root=/dev/mapper/root"
        ∷ ("cryptopts=target=root,source=UUID=" <> (d.crypt_uuid <> ",key=none,luks"))
        ∷ b.cmd_line_extra
        ∷ [])

unfoldable pub install_bootloader : Builder → Exec Devices (Unit {0})
install_bootloader b = do
  d ← gets (λ d. d)
  Bootloader.setup b.bootloader d.lo_device b.mnt_point (cmdline b d)
