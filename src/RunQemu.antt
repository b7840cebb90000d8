-- ===== src/RunQemu.antt =====
-- cmd/d2vm/run/qemu.go: the command `run qemu`, its flags and what it passes to Run.
pub mod Laws
use d2vm.Base.{ℕ, String, Bool, false, List, [], ◌∷◌, ◌++◌, Result, ok, err, if◌then◌else◌}
use d2vm.Host.{Exec, stat, pure, lift, ◌>>=◌, ◌>>◌, system_}
use d2vm.Qemu.Config.{
  Disk, QemuOption, with_disks, with_accel, with_arch, with_cpus, with_memory, with_networking,
  with_bios, with_gui, with_detached,
}
use d2vm.Qemu.Run as Run
use d2vm.Qemu.Run.{Defaults, run_qemu}
use d2vm.RunUtil.{PublishedPort, new_published_port}

-- The variables that the command's flags set.
pub record QemuFlags : Type 0 where
  pub enable_gui : Bool
  pub disks : List Disk
  pub accel : String
  pub arch : String
  pub cpus : ℕ
  pub mem : ℕ
  pub bios : String
  pub qemu_cmd : String
  pub qemu_detached : Bool
  pub networking : String
  pub publish_flags : List String

-- init: the defaults of the flags. The architecture and the acceleration are chosen as in
-- pkg/qemu, word for word.
unfoldable pub init : {M : Type 0} → Exec M QemuFlags
init = do
  defaults ← Run.init
  pure (record {
    enable_gui = false;
    disks = [];
    accel = defaults.accel;
    arch = defaults.arch;
    cpus = 1;
    mem = 1024;
    bios = "";
    qemu_cmd = "";
    qemu_detached = false;
    networking = "user";
    publish_flags = [];
  })

with_port : Result PublishedPort → Result (List PublishedPort) → Result (List PublishedPort)
with_port (err e) ports = err e
with_port (ok p) (err e) = err e
with_port (ok p) (ok ports) = ok (p ∷ ports)

-- The loop over the flag publish, which ends the process at the first error.
unfoldable pub published_ports : List String → Result (List PublishedPort)
unfolding with_port
published_ports [] = ok []
published_ports (publish ∷ rest) = with_port (new_published_port publish) (published_ports rest)

-- The options without the three streams.
unfoldable pub options : QemuFlags → List QemuOption
options f =
    (with_disks f.disks
      ∷ with_accel f.accel
      ∷ with_arch f.arch
      ∷ with_cpus f.cpus
      ∷ with_memory f.mem
      ∷ with_networking f.networking
      ∷ with_bios f.bios
      ∷ [])
    ++ ((if f.enable_gui then with_gui ∷ [] else [])
        ++ (if f.qemu_detached then with_detached ∷ [] else []))

-- Qemu. The ports are read, and not used.
unfoldable pub qemu : {M : Type 0} → Defaults → QemuFlags → String → Exec M (Unit {0})
qemu defaults f path = do
  system_ (stat path)
  ports ← lift (published_ports f.publish_flags)
  run_qemu defaults path (options f)
