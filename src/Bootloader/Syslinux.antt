-- ===== src/Bootloader/Syslinux.antt =====
-- syslinux.go
use d2vm.Base.{String, ◌<>◌, not, ◌==◌, List, [], ◌∷◌, if◌then◌else◌}
use d2vm.Text.Paths.{join_path}
use d2vm.Host.{Exec, write_file, stat, pure, raise, ◌>>=◌, ◌>>◌, handling, system, system_, run}
use d2vm.Config.{Config}

pub record Syslinux : Type 0 where
  pub c : Config
  pub mbr_bin : String

abbrev pub mbr_paths : List String
mbr_paths =
    "/usr/lib/syslinux/mbr/mbr.bin" ∷ "/usr/lib/EXTLINUX/mbr.bin" ∷ "/usr/share/syslinux/mbr.bin"
    ∷ "/usr/share/syslinux/mbr.bin" ∷ "/usr/lib/syslinux/bios/mbr.bin" ∷ []

syslinux_cfg : String → String → String
syslinux_cfg kernel cmdline =
    "DEFAULT linux\n  SAY Now booting the kernel from SYSLINUX...\n LABEL linux\n  KERNEL "
    <> (kernel <> ("\n  APPEND " <> (cmdline <> "\n")))

-- The loop of New: the first path that can be read, or the empty text.
unfoldable pub find_mbr : {M : Type 0} → List String → Exec M String
find_mbr [] = pure ""
find_mbr (v ∷ paths) = handling (system (stat v)) (λ _. pure v) (λ _. find_mbr paths)

unfoldable pub found : {M : Type 0} → Config → String → Exec M Syslinux
found c mbr_bin =
    if mbr_bin == ""
    then raise "unable to find syslinux's mbr.bin path"
    else pure (record { c = c; mbr_bin = mbr_bin })

unfoldable pub new_syslinux : {M : Type 0} → Config → String → Exec M Syslinux
unfolding found
new_syslinux c arch =
    if not (arch == "x86_64")
    then raise "syslinux is only supported for amd64"
    else do mbr_bin ← find_mbr mbr_paths; found c mbr_bin

unfoldable pub setup_syslinux :
    {M : Type 0} → Syslinux → String → String → String → Exec M (Unit {0})
unfolding syslinux_cfg
setup_syslinux s dev root cmdline = do
  run "extlinux" ("--install" ∷ join_path (root ∷ "boot" ∷ []) ∷ [])
  system_ (
      write_file (join_path (root ∷ "boot" ∷ "syslinux.cfg" ∷ [])) (syslinux_cfg s.c.kernel cmdline)
        0o644)
  run "dd" (("if=" <> s.mbr_bin) ∷ ("of=" <> dev) ∷ "bs=440" ∷ "count=1" ∷ "conv=notrunc" ∷ [])
