-- ===== src/RunQemu/Laws.antt =====
-- What the command's flags come to.
use d2vm.Base.{String, ◌≡◌, refl, Bool, true, false, ◌||◌, List, [], ◌∷◌, ◌++◌, if◌then◌else◌, ok}
use d2vm.Host.{Host, World, lift, ◌>>=◌}
use d2vm.Qemu.Config.{
  Config, configure, with_disks, with_accel, with_arch, with_cpus, with_memory, with_networking,
  with_bios, with_gui, with_detached, zero_config,
}
use d2vm.Qemu.Run.{Defaults}
use d2vm.RunUtil.{PublishedPort}
use d2vm.RunQemu.{QemuFlags, published_ports, options, qemu}

-- The configuration that the flags describe: it has no ports and no path to QEMU.
abbrev pub described : QemuFlags → Config
described f = record zero_config {
  gui = f.enable_gui;
  disks = f.disks;
  networking = f.networking;
  arch = f.arch;
  cpus = f.cpus;
  memory = f.mem;
  bios = f.bios;
  accel = f.accel;
  detached = f.qemu_detached;
}

or_false : (b : Bool) → (b || false) ≡ b
or_false true = refl
or_false false = refl

configure-switches :
    (gui detached : Bool) (c : Config)
    → configure
        ((if gui then with_gui ∷ [] else []) ++ (if detached then with_detached ∷ [] else []))
        c
      ≡ record c { gui = gui || c.gui; detached = detached || c.detached }
unfolding configure with_gui with_detached
configure-switches true true c = refl
configure-switches true false c = refl
configure-switches false true c = refl
configure-switches false false c = refl

-- Applied to the empty configuration, the options give the one that the flags describe, without
-- any published port and without a path to QEMU.
pub configure-options : (f : QemuFlags) → configure (options f) zero_config ≡ described f
unfolding configure options with_disks with_accel with_arch with_cpus with_memory with_networking
    with_bios
configure-options f =
    rw (configure-switches f.enable_gui f.qemu_detached)
      (rw (or_false f.enable_gui) (rw (or_false f.qemu_detached) refl))

-- Ports that can be read make no difference to the command.
pub qemu-without_ports :
    {M : Type 0} (defaults : Defaults) (f : QemuFlags) (path : String) (ports : List PublishedPort)
    (h : Host) (w : World M)
    → published_ports f.publish_flags ≡ ok ports
    → qemu defaults f path h w ≡ qemu defaults (record f { publish_flags = [] }) path h w
unfolding qemu published_ports options lift ◌>>=◌
qemu-without_ports defaults f path ports h w e = rw e refl
