-- ===== src/Defaults.antt =====
-- What the commands' flags are when the command line is silent: buildFlags of cmd/d2vm/flags.go and
-- the variables of build.go, the init functions of cmd/d2vm/run/vbox.go and hetzner.go, and the
-- variables of version.go, whose version is set by the linker.
pub mod Laws
use d2vm.Base.{String, ◌<>◌, false, []}
use d2vm.Host.{Host}
use d2vm.QemuImg.{Settings}
use d2vm.Flags.{Flags}
use d2vm.Commands.{CommandFlags}
use d2vm.RunQemu.{QemuFlags}
use d2vm.Vbox.{VboxFlags}
use d2vm.Hetzner.{HetznerFlags}

-- d2vm.Arch
unfoldable pub arch : Host → String
arch h = h.goos <> ("/" <> h.goarch)

-- The init function of version.go.
unfoldable pub settings_of : String → Settings
settings_of version = record {
  docker_image_name = "linkacloud/d2vm";
  docker_image_version = version;
}

-- The flags that validateFlags reads. `uuid` is in the name of the image that is built.
unfoldable pub checked_flags : Host → String → Flags
unfolding arch
checked_flags h uuid = record {
  platform = arch h;
  bootloader = "";
  luks_password = "";
  split_boot = false;
  boot_fs = "";
  push = false;
  tag = "d2vm-" <> uuid;
  output = "disk0.qcow2";
  force = false;
  hosts = [];
  extra_hosts = [];
}

-- buildFlags
unfoldable pub build_flags : Host → String → String → CommandFlags
unfolding settings_of
build_flags h uuid version = record {
  flags = checked_flags h uuid;
  size = "10G";
  password = "";
  cmd_line_extra = "";
  network_manager = "";
  raw = false;
  boot_size = 100;
  keep_cache = false;
  pull = false;
  hostname = "localhost";
  dns = [];
  dns_search = [];
  container_disk_tag = "";
  file = "";
  build_args = [];
  settings = settings_of version;
}

-- The flags of the command vbox. Those for the display, the CPUs and the memory are bound to no
-- variable: the command has what the command qemu has set.
unfoldable pub vbox_flags : QemuFlags → String → VboxFlags
unfolding settings_of
vbox_flags q version = record {
  vboxmanage_flag = "VBoxManage";
  name = "d2vm";
  disks = q.disks;
  networks = [];
  enable_gui = q.enable_gui;
  cpus = q.cpus;
  mem = q.mem;
  settings = settings_of version;
}

unfoldable pub hetzner_flags : String → HetznerFlags
unfolding settings_of
hetzner_flags version = record {
  vm_type = "cx11";
  token = "";
  datacenter = "hel1-dc2";
  server_name = "d2vm";
  ssh_user = "root";
  ssh_key_path = "";
  remove = false;
  settings = settings_of version;
}
