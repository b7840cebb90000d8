-- ===== src/Config.antt =====
-- config.go: where a distribution keeps its kernel, and the kernel command line.
use d2vm.Base.{
  String, ◌<>◌, ◌||◌, ◌==◌, Option, none, some, List, Result, ok, err, text_lt, if◌then◌else◌,
}
use d2vm.Text.{join}
use d2vm.OsRelease.{OsRelease}
use d2vm.Release

pub record Config : Type 0 where
  pub kernel : String
  pub initrd : String

abbrev pub config_ubuntu : Config
config_ubuntu = record { kernel = "/boot/vmlinuz"; initrd = "/boot/initrd.img" }

abbrev pub config_debian : Config
config_debian = record { kernel = "/boot/vmlinuz"; initrd = "/boot/initrd.img" }

abbrev pub config_alpine : Config
config_alpine = record { kernel = "/boot/vmlinuz-virt"; initrd = "/boot/initramfs-virt" }

abbrev pub config_centos : Config
config_centos = record { kernel = "/boot/vmlinuz"; initrd = "/boot/initrd.img" }

-- The two types that implement the interface Root.
pub data Root : Type 0 where
  root_uuid : String → Root
  root_path : String → Root

unfoldable pub root_string : Root → String
root_string (root_uuid r) = "UUID=" <> r
root_string (root_path r) = r

-- `none` is the nil Root.
root_argument : Option Root → String
root_argument none = ""
root_argument (some r) = "root=" <> root_string r

unfoldable pub cmdline : Config → Option Root → List String → String
unfolding root_argument root_string
cmdline c root args =
    "ro initrd="
    <> (c.initrd
        <> (" "
            <> (root_argument root
                <> (" net.ifnames=0 rootfstype=ext4 console=tty0 console=ttyS0,115200n8 "
                    <> join args " "))))

-- OSRelease.Config
unfoldable pub config : OsRelease → Result Config
config r =
    if r.id == Release.ubuntu
    then (if text_lt r.version_id "20.04" then ok config_debian else ok config_ubuntu)
    else if r.id == Release.debian
    then ok config_debian
    else if r.id == Release.kali
    then ok config_debian
    else if r.id == Release.alpine
    then ok config_alpine
    else if r.id == Release.centos || r.id == Release.rocky || r.id == Release.almalinux
    then ok config_centos
    else err (r.id <> ": distribution not supported")
