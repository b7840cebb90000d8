-- ===== src/Builder/RootFs/Names.antt =====
-- Between mountImg and unmountImg the fields that name the devices stay as they are.
use d2vm.Base.{String, ◌≡◌}
use d2vm.Host.{Exec}
use d2vm.Host.Keeps.{Keeps, Keeps-modify, keep_rules}
use d2vm.Image.{flatten}
use d2vm.Bootloader.{Bootloader, syslinux, grub, grub_bios, grub_efi, setup}
use d2vm.Bootloader.Syslinux.{setup_syslinux}
use d2vm.Bootloader.Grub.Names.{setup_grub-Keeps, setup_grub_bios-Keeps, setup_grub_efi-Keeps}
use d2vm.Builder.Defs.{Builder, Devices}
use d2vm.Builder.RootFs.{
  copy_root_fs, disk_uuid, assign, ch_write_file, ch_write_file_if_not_exist, make_fstab,
  setup_alpine, setup_root_fs, install_bootloader,
}

setup-Keeps :
    {M V : Type 0} (view : M → V) (bl : Bootloader) (dev root cmdline : String)
    → Keeps view (setup bl dev root cmdline)
unfolding setup setup_syslinux
setup-Keeps view (syslinux s) dev root cmdline = search keep_rules
setup-Keeps view (grub g) dev root cmdline = setup_grub-Keeps view g dev root cmdline
setup-Keeps view (grub_bios g) dev root cmdline = setup_grub_bios-Keeps view g dev root cmdline
setup-Keeps view (grub_efi g arch) dev root cmdline =
    setup_grub_efi-Keeps view arch g dev root cmdline

-- What unmountImg reads of the fields.
abbrev pub names : Devices → String × String
names d = (d.lo_device, d.mapped_crypt_root)

pub copy_root_fs-Keeps : (b : Builder) → Keeps names (copy_root_fs b)
unfolding copy_root_fs flatten
copy_root_fs-Keeps b = search keep_rules depth 12

disk_uuid-Keeps : (disk : String) → Keeps names (disk_uuid disk)
unfolding disk_uuid
disk_uuid-Keeps disk = search keep_rules

assign-Keeps :
    (set : String → Devices → Devices) (m : Exec Devices String)
    → ((v : String) (d : Devices) → names (set v d) ≡ names d)
    → Keeps names m
    → Keeps names (assign set m)
unfolding assign
assign-Keeps set m same p = search (keep_rules, Keeps-modify)

make_fstab-Keeps : (b : Builder) → Keeps names (make_fstab b)
unfolding make_fstab
make_fstab-Keeps b = search (keep_rules, Keeps-modify, assign-Keeps, disk_uuid-Keeps) depth 12

ch_write_file-Keeps :
    (b : Builder) (path content : String) → Keeps names (ch_write_file b path content)
unfolding ch_write_file
ch_write_file-Keeps b path content = search keep_rules

ch_write_file_if_not_exist-Keeps :
    (b : Builder) (path content : String) → Keeps names (ch_write_file_if_not_exist b path content)
unfolding ch_write_file_if_not_exist
ch_write_file_if_not_exist-Keeps b path content = search (keep_rules, ch_write_file-Keeps)

setup_alpine-Keeps : (b : Builder) → Keeps names (setup_alpine b)
unfolding setup_alpine
setup_alpine-Keeps b = search (keep_rules, ch_write_file-Keeps, ch_write_file_if_not_exist-Keeps)

pub setup_root_fs-Keeps : (b : Builder) → Keeps names (setup_root_fs b)
unfolding setup_root_fs
setup_root_fs-Keeps b =
    search (keep_rules, make_fstab-Keeps, ch_write_file-Keeps, setup_alpine-Keeps) depth 12

pub install_bootloader-Keeps : (b : Builder) → Keeps names (install_bootloader b)
unfolding install_bootloader
install_bootloader-Keeps b = search (keep_rules, setup-Keeps)
