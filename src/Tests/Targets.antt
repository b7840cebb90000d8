-- ===== src/Tests/Targets.antt =====
-- The machines that run an image, on the host where every call succeeds.
use d2vm.Base.{ℕ, ◌+◌, ◌/◌, ◌%◌, ◌≤◌, arith, ◌≡◌, refl, Bool, true, false, List, [], ◌∷◌, ok}
use d2vm.Text.Numbers.{pos, decimal}
use d2vm.Host.{
  Event, Host, World, ◌>>=◌, pure, raise, lift, asks, gets, modify, handling, system, system_,
  run_combined, run_command, deferring, attempt,
}
use d2vm.Host.Routines.{both, alone, choose}
use d2vm.Hetzner.{
  run_image, sparsecat, server_arch, removing, set_up, dial_within, wait_within, transfer,
  part_number,
}
use d2vm.Text.{has_prefix, to_lower, words, trim_suffix, remove_first}
use d2vm.Text.Numbers.{atoi}
use d2vm.RunUtil.Sizes.{parse_int}
use d2vm.QemuImg.{info}
use d2vm.Host.Healthy.{Succeeds}
use d2vm.Host.Order.{Leaves}
use d2vm.Host.Rules.{taken, given}
use d2vm.QemuImg.{Settings, ImgInfo}
use d2vm.Qemu.Config.{Disk, Config, PublishedPort, zero_config, configure}
use d2vm.Qemu.Cmdline.{go_arch}
use d2vm.Qemu.Disks.{complete_disk, complete_disks}
use d2vm.Qemu.Disks.Laws.{AllComplete, complete_disks-AllComplete}
use d2vm.Qemu.Net.{set_bits}
use d2vm.Qemu.Net.Laws.{set_bits_lem}
use d2vm.Qemu.Run.{Defaults, run_qemu_local}
use d2vm.Qemu.Run.Laws.{EndsWith, run_qemu_local-EndsWith}
use d2vm.Qemu.Run.Completes.{Random, run_qemu_local-Succeeds}
use d2vm.RunQemu.{QemuFlags, options}
use d2vm.RunQemu.Laws.{described, configure-options}
use d2vm.Vbox.{VboxFlags, start_vm, vbox}
use d2vm.Vbox.Quiet.{running_vm, vbox_held}
use d2vm.Vbox.Cleans.{vbox-releases}
use d2vm.Hetzner.{HetznerFlags, Cloud, run_hetzner}
use d2vm.Hetzner.Quiet.{server}
use d2vm.Hetzner.Cleans.{run_hetzner-deletes}
use d2vm.Hetzner.Writes.{ImageWritten, run_hetzner-ImageWritten}
use d2vm.Tests.Machine.{machine, start, machine-Healthy}

abbrev pub settings : Settings
settings = record { docker_image_name = "linkacloud/d2vm"; docker_image_version = "latest" }

abbrev raw_info : ImgInfo
raw_info = record {
  virtual_size = pos 4096;
  filename = "disk0.raw";
  format = "raw";
  actual_size = pos 4096;
  dirty_flag = false;
}

abbrev data_disk : Disk
data_disk = record { path = "/data.qcow2"; size = pos 1024; format = "qcow2" }

abbrev vbox_flags : VboxFlags
vbox_flags = record {
  vboxmanage_flag = "VBoxManage";
  name = "d2vm";
  disks = data_disk ∷ [];
  networks = [];
  enable_gui = false;
  cpus = 1;
  mem = 1024;
  settings = settings;
}

abbrev boxed : List Event
boxed = (vbox (λ s. ok raw_info) vbox_flags "disk0.raw" machine (start tt)).1.log

abbrev started : List Event
started = (start_vm "VBoxManage" vbox_flags "/tmp/console" machine (start tt)).1.log

vbox-releases_example :
    (taken (vbox_held (running_vm "d2vm")) boxed + 0
      ≤ given (vbox_held (running_vm "d2vm")) boxed + 0)
    × (taken (vbox_held (running_vm "d2vm")) started + 0
        ≤ given (vbox_held (running_vm "d2vm")) started + 0)
vbox-releases_example =
    vbox-releases (running_vm "d2vm") (λ s. ok raw_info) vbox_flags "VBoxManage" "disk0.raw"
      "/tmp/console" machine (start tt)

abbrev hetzner_flags : HetznerFlags
hetzner_flags = record {
  vm_type = "cx11";
  token = "token";
  datacenter = "hel1-dc2";
  server_name = "d2vm";
  ssh_user = "root";
  ssh_key_path = "";
  remove = true;
  settings = settings;
}

abbrev hcloud : Cloud
hcloud = record {
  images = λ s. "ubuntu" ∷ [];
  server_ip = λ s. "10.0.0.5";
  root_password = λ s. "secret";
}

abbrev hosted : World Bool
hosted = (run_hetzner (λ s. ok raw_info) hcloud hetzner_flags "disk0.raw" machine (start false)).1

run_hetzner-deletes_example : taken (server "") hosted.log + 0 ≤ given (server "") hosted.log + 0
run_hetzner-deletes_example =
    run_hetzner-deletes (λ s. ok raw_info) "" hcloud hetzner_flags "disk0.raw" machine (start false)
      refl

abbrev bare_disk : Disk
bare_disk = record { path = ""; size = pos 1024; format = "" }

abbrev completed : List Disk
completed = record { path = "disk1.img"; size = pos 1024; format = "qcow2" } ∷ []

are_completed : complete_disks 1 (bare_disk ∷ []) ≡ ok completed
unfolding complete_disks complete_disk decimal
are_completed = refl

complete_disks-AllComplete_example : AllComplete (bare_disk ∷ []) completed
complete_disks-AllComplete_example =
    complete_disks-AllComplete 1 (bare_disk ∷ []) completed are_completed

abbrev ports : List PublishedPort
ports = record { guest = 22; host = 2222; protocol = "tcp" } ∷ []

set_bits_lem_example :
    (c : ℕ) × (set_bits (255 ∷ 7 ∷ []) ≡ c ∷ 7 ∷ []) × (c % 4 ≡ 2) × (c / 4 ≡ 255 / 4)
set_bits_lem_example = set_bits_lem 255 (7 ∷ []) (omega arith)

abbrev defaults : Defaults
defaults = record { arch = "x86_64"; accel = "kvm:tcg" }

abbrev complete : Config
complete = record zero_config {
  path = "disk0.raw";
  disks = data_disk ∷ [];
  arch = "x86_64";
  cpus = 1;
  memory = 1024;
  netdev_config = "user,id=t0";
  qemu_bin_path = "/usr/bin/qemu-system-x86_64";
  qemu_img_path = "/usr/bin/qemu-img";
}

run_qemu_local-EndsWith_example :
    Leaves {M = Unit {0}}
      (λ log. EndsWith complete.qemu_bin_path log × (complete.detached ≡ false))
      (run_qemu_local complete)
run_qemu_local-EndsWith_example = run_qemu_local-EndsWith complete

machine-Random : Random machine
machine-Random = record { six = λ log. (255 ∷ 0 ∷ 16 ∷ 32 ∷ 64 ∷ 171 ∷ [], refl, refl) }

is_amd64 : go_arch complete.arch ≡ ok "amd64"
unfolding go_arch
is_amd64 = refl

run_qemu_local-Succeeds_example : Succeeds machine {M = Unit {0}} (run_qemu_local complete)
run_qemu_local-Succeeds_example =
    run_qemu_local-Succeeds machine machine-Healthy machine-Random complete "amd64" is_amd64 refl

abbrev qemu_flags : QemuFlags
qemu_flags = record {
  enable_gui = true;
  disks = data_disk ∷ [];
  accel = "kvm:tcg";
  arch = "x86_64";
  cpus = 2;
  mem = 2048;
  bios = "";
  qemu_cmd = "";
  qemu_detached = false;
  networking = "user";
  publish_flags = "2222:22" ∷ [];
}

configure-options_example : configure (options qemu_flags) zero_config ≡ described qemu_flags
configure-options_example = configure-options qemu_flags

run_hetzner-ImageWritten_example :
    Leaves
      (ImageWritten "disk0.raw")
      (run_hetzner (λ s. ok raw_info) hcloud hetzner_flags "disk0.raw")
run_hetzner-ImageWritten_example =
    run_hetzner-ImageWritten (λ s. ok raw_info) hcloud hetzner_flags "disk0.raw"

-- A server that lists one partition.
abbrev answering : Host
answering = record machine { system = λ log call. ok "/dev/sda1\n" }

run_hetzner_succeeds :
    (run_hetzner (λ s. ok raw_info) hcloud hetzner_flags "disk0.raw" answering (start false)).0
    ≡ ok tt
unfolding run_hetzner ◌>>=◌ pure raise lift asks gets modify info handling system system_
    run_combined run_command deferring attempt run_image sparsecat server_arch has_prefix to_lower
    removing set_up dial_within wait_within transfer part_number both alone choose words trim_suffix
    remove_first parse_int atoi
run_hetzner_succeeds = refl
