-- ===== src/Qemu/Cmdline.antt =====
-- pkg/qemu/qemu.go: buildQemuCmdline.
use d2vm.Base.{
  ℕ, ◌+◌, String, ◌<>◌, not, ◌&&◌, ◌==◌, List, [], ◌∷◌, ◌++◌, Result, ok, err, if◌then◌else◌,
}
use d2vm.Text.Numbers.{decimal}
use d2vm.Host.{Exec, pure, lift, asks, ◌>>=◌}
use d2vm.Qemu.Config.{Disk, Config}
use d2vm.Qemu.Net.{generate_mac, mac_string, build_qemu_forwardings}

-- GOARCH for the architecture.
unfoldable pub go_arch : String → Result String
go_arch arch =
    if arch == "s390x"
    then ok "s390x"
    else if arch == "aarch64"
    then ok "arm64"
    else if arch == "x86_64"
    then ok "amd64"
    else err (arch <> " is an unsupported architecture.")

cpu_args : String → Config → List String
cpu_args goarch c =
    "-cpu"
    ∷ (if (c.arch == "aarch64") && not (goarch == "arm64") then "cortex-a57" else "host")
    ∷ []

-- The value of -machine, for an acceleration that may be empty.
unfoldable pub machine : String → String → String → String
machine goos arch accel =
    if not (accel == "")
    then (if arch == "s390x"
        then "s390-ccw-virtio,accel=" <> accel
        else if arch == "aarch64"
        then (let gic = if goos == "linux" then "gic_version=host," else "" in
            let highmem = if goos == "linux" then "" else "highmem=off," in
            "virt," <> (gic <> (highmem <> ("accel=" <> accel))))
        else "q35,accel=" <> accel)
    else (if arch == "s390x"
        then "s390-ccw-virtio"
        else if arch == "aarch64"
        then "virt"
        else "q35")

rng_args : String → String → List String
rng_args goos arch =
    if goos == "darwin"
    then []
    else (let rng =
          "rng-random,id=rng0" <> (if goos == "linux" then ",filename=/dev/urandom" else "") in
        "-object"
        ∷ rng
        ∷ "-device"
        ∷ (if arch == "s390x" then "virtio-rng-ccw,rng=rng0" else "virtio-rng-pci,rng=rng0")
        ∷ [])

unfoldable pub drive : ℕ → Disk → String
drive index d =
    if not (d.format == "")
    then "file="
      <> (d.path <> (",format=" <> (d.format <> (",index=" <> (decimal index <> ",media=disk")))))
    else "file=" <> (d.path <> (",index=" <> (decimal index <> ",media=disk")))

-- The loop over the disks from index `i` on.
unfoldable pub drive_args : ℕ → List Disk → List String
unfolding drive
drive_args i [] = []
drive_args i (d ∷ disks) = "-drive" ∷ drive i d ∷ drive_args (i + 1) disks

unfoldable pub net_args : {M : Type 0} → Config → Exec M (List String)
net_args c =
    if not (c.netdev_config == "")
    then (do
      mac ← generate_mac
      pure (
          "-device"
          ∷ ((if c.arch == "s390x"
                then "virtio-net-ccw,netdev=t0,mac="
                else "virtio-net-pci,netdev=t0,mac=")
              <> mac_string mac)
          ∷ "-netdev"
          ∷ (c.netdev_config <> build_qemu_forwardings c.published_ports)
          ∷ []))
    else pure ("-net" ∷ "none" ∷ [])

-- What stands in front of the drives.
unfoldable pub machine_args : String → String → String → Config → List String
unfolding cpu_args rng_args machine
machine_args goos goarch accel c =
    ("-smp" ∷ decimal c.cpus ∷ "-m" ∷ decimal c.memory ∷ "-uuid" ∷ c.uuid ∷ [])
    ++ ((if not (c.bios == "") then "-bios" ∷ c.bios ∷ [] else [])
        ++ (cpu_args goarch c
            ++ (("-machine" ∷ machine goos c.arch accel ∷ []) ++ rng_args goos c.arch)))

-- Without acceleration for another architecture than the host's.
unfoldable pub usable_accel : String → String → String → String
usable_accel goarch wanted accel = if not (wanted == goarch) then "" else accel

unfoldable pub build_qemu_cmdline : {M : Type 0} → Config → Exec M (List String)
unfolding machine_args net_args usable_accel
build_qemu_cmdline c = do
  wanted ← lift (go_arch c.arch)
  goos ← asks (λ h. h.goos)
  goarch ← asks (λ h. h.goarch)
  net ← net_args c
  pure (
      machine_args goos goarch (usable_accel goarch wanted c.accel) c
      ++ (drive_args 0 c.disks ++ (net ++ (if not c.gui then "-nographic" ∷ [] else []))))
