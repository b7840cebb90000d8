-- ===== src/Tests/Machine.antt =====
-- A host on which every call succeeds, and what is built on it.
use d2vm.Base.{true, false, none, [], ◌∷◌, ok, refl}
use d2vm.Host.{Host, World}
use d2vm.Host.Healthy.{Healthy}
use d2vm.OsRelease.{OsRelease}
use d2vm.Bootloader.{Bootloader}
use d2vm.Bootloader.Syslinux.{Syslinux}
use d2vm.Config.{Config}
use d2vm.Image.{Image}
use d2vm.Builder.Defs.{Builder}
use d2vm.Flags.{Flags}
use d2vm.Builder.New.{Request}

abbrev pub machine : Host
machine = record {
  process =
      λ log c args. record { stdout = "loop0\n"; stderr = ""; combined = "loop0\n"; error = none };
  system = λ log call. ok "";
  size = λ log path. 4096;
  is_not_exist = λ e. true;
  is_unsupported = λ e. false;
  debug = false;
  goos = "linux";
  goarch = "amd64";
  uid = 0;
  euid = 0;
  interactive = false;
  lookup_env = λ key. none;
  uuid = λ log. "b2a1";
  random = λ log n. ok (255 ∷ 0 ∷ 16 ∷ 32 ∷ 64 ∷ 171 ∷ []);
  rounds = λ log. 3;
  first_done = λ log. true;
  temp_dir = "/tmp";
  dotenv = λ text. ok (("ID", "debian") ∷ ("VERSION_ID", "12") ∷ []);
  parse_size = λ text. ok 10;
  combined = λ errors. "errors";
}

pub machine-Healthy : Healthy machine
machine-Healthy = record { process = λ log c args. refl; system = λ log call. ("", refl) }

abbrev pub start : {M : Type 0} → M → World M
start m = record { mem = m; log = [] }

abbrev pub debian_12 : OsRelease
debian_12 = record {
  id = "debian";
  name = "Debian GNU/Linux";
  version_id = "12";
  version = "12 (bookworm)";
  version_code_name = "bookworm";
}

abbrev pub boot_files : Config
boot_files = record { kernel = "/vmlinuz"; initrd = "/initrd.img" }

abbrev pub mbr : Syslinux
mbr = record { c = boot_files; mbr_bin = "/usr/lib/syslinux/mbr/mbr.bin" }

abbrev pub saved : Image
saved = record { tar = "/work/img.layers.tar"; dir = "/work" }

-- An encrypted disk with a boot partition.
abbrev pub encrypted : Builder
encrypted = record {
  os_release = debian_12;
  config = boot_files;
  bootloader = Bootloader.syslinux mbr;
  img = saved;
  disk_raw = "/work/disk0.d2vm.raw";
  disk_out = "/work/disk0.qcow2";
  format = "qcow2";
  size = 10000000;
  mnt_point = "/work/mnt";
  split_boot = true;
  boot_size = 100;
  boot_fs = "ext4";
  luks_password = "secret";
  cmd_line_extra = "";
  arch = "x86_64";
  hostname = "localhost";
  dns = "8.8.8.8" ∷ [];
  dns_search = [];
  hosts = "";
}

abbrev pub request : Request
request = record {
  workdir = "/work";
  img_tag = "debian";
  disk = "";
  size = 10000000;
  os_release = debian_12;
  format = "QCOW2";
  cmd_line_extra = "";
  split_boot = true;
  boot_fs = "";
  boot_size = 100;
  luks_password = "secret";
  boot_loader = "";
  platform = "linux/amd64";
  hostname = "";
  dns = [];
  dns_search = [];
  extra_hosts = ("host", "10.0.0.1") ∷ [];
}

abbrev pub flags : Flags
flags = record {
  platform = "linux/aarch64";
  bootloader = "";
  luks_password = "secret";
  split_boot = false;
  boot_fs = "";
  push = false;
  tag = "d2vm:latest";
  output = "disk0.qcow2";
  force = true;
  hosts = "db:10.0.0.2" ∷ [];
  extra_hosts = [];
}

-- What validateFlags makes of these flags.
abbrev pub valid_flags : Flags
valid_flags = record flags {
  platform = "linux/arm64";
  bootloader = "grub-efi";
  split_boot = true;
  boot_fs = "fat32";
  extra_hosts = ("db", "10.0.0.2") ∷ [];
}
