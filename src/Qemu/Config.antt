-- ===== src/Qemu/Config.antt =====
-- pkg/qemu/config.go: the record that the options of Run build up. The three streams that the
-- process is connected to are left out.
use d2vm.Base.{ℕ, String, Bool, true, false, List, [], ◌∷◌}
use d2vm.Text.Numbers.{ℤ}

pub record Disk : Type 0 where
  pub path : String
  pub size : ℤ
  pub format : String

pub record PublishedPort : Type 0 where
  pub guest : ℕ
  pub host : ℕ
  pub protocol : String

pub record Config : Type 0 where
  pub path : String
  pub uuid : String
  pub gui : Bool
  pub disks : List Disk
  pub networking : String
  pub arch : String
  pub cpus : ℕ
  pub memory : ℕ
  pub bios : String
  pub accel : String
  pub detached : Bool
  pub qemu_bin_path : String
  pub qemu_img_path : String
  pub published_ports : List PublishedPort
  pub netdev_config : String

-- `&config{}`
abbrev pub zero_config : Config
zero_config = record {
  path = "";
  uuid = "";
  gui = false;
  disks = [];
  networking = "";
  arch = "";
  cpus = 0;
  memory = 0;
  bios = "";
  accel = "";
  detached = false;
  qemu_bin_path = "";
  qemu_img_path = "";
  published_ports = [];
  netdev_config = "";
}

-- Option
abbrev pub QemuOption : Type 0
QemuOption = Config → Config

unfoldable pub with_gui : QemuOption
with_gui c = record c { gui = true }

unfoldable pub with_disks : List Disk → QemuOption
with_disks v c = record c { disks = v }

unfoldable pub with_networking : String → QemuOption
with_networking v c = record c { networking = v }

unfoldable pub with_arch : String → QemuOption
with_arch v c = record c { arch = v }

unfoldable pub with_cpus : ℕ → QemuOption
with_cpus v c = record c { cpus = v }

unfoldable pub with_memory : ℕ → QemuOption
with_memory v c = record c { memory = v }

unfoldable pub with_bios : String → QemuOption
with_bios v c = record c { bios = v }

unfoldable pub with_accel : String → QemuOption
with_accel v c = record c { accel = v }

unfoldable pub with_detached : QemuOption
with_detached c = record c { detached = true }

unfoldable pub with_qemu_bin_path : String → QemuOption
with_qemu_bin_path v c = record c { qemu_bin_path = v }

unfoldable pub with_qemu_img_path : String → QemuOption
with_qemu_img_path v c = record c { qemu_img_path = v }

unfoldable pub with_published_ports : List PublishedPort → QemuOption
with_published_ports v c = record c { published_ports = v }

-- The loop of Run over its options.
unfoldable pub configure : List QemuOption → Config → Config
configure [] c = c
configure (o ∷ opts) c = configure opts (o c)
