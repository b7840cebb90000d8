-- ===== src/Host/Mounts.antt =====
-- The resources that a build takes from its host: mounted directories, loop devices, the
-- partitions that kpartx maps, and opened encrypted partitions.
use d2vm.Base.{String, Bool, true, false, ◌&&◌, ◌==◌, List, [], ◌∷◌, if◌then◌else◌}
use d2vm.Text.{trim_suffix}
use d2vm.Text.Paths.{join_path}
use d2vm.Host.{Call, command}
use d2vm.Host.Rules.{Resource}

-- A directory that is mounted on, a loop device, a loop device whose partitions are mapped, and the
-- path of an opened encrypted partition.
pub data Held : Type 0 where
  mounted_on loop_device partition_maps open_crypt : String → Held

abbrev pub last_argument : List String → String
last_argument [] = ""
last_argument (s ∷ []) = s
last_argument (s ∷ t ∷ rest) = last_argument (t ∷ rest)

abbrev pub first_argument : List String → String
first_argument [] = ""
first_argument (s ∷ rest) = s

abbrev pub mounts : Held → String → Bool
mounts (mounted_on target) path = path == target
mounts _ path = false

abbrev takes_loop : Held → Bool
takes_loop (loop_device dev) = true
takes_loop _ = false

abbrev pub is_loop : Held → String → Bool
is_loop (loop_device dev) s = s == dev
is_loop _ s = false

abbrev pub is_maps : Held → String → Bool
is_maps (partition_maps dev) s = s == dev
is_maps _ s = false

abbrev pub is_crypt : Held → String → Bool
is_crypt (open_crypt path) s = s == path
is_crypt _ s = false

-- Where cryptsetup puts the partition that it opens under a name.
abbrev pub mapped : String → String
mapped name = join_path ("/dev/mapper" ∷ name ∷ [])

abbrev takes : Held → Call → Bool
takes k (command c args) =
    if c == "mount"
    then mounts k (last_argument args)
    else if c == "losetup"
    then first_argument args == "--show" && takes_loop k
    else if c == "kpartx"
    then first_argument args == "-a" && is_maps k (last_argument args)
    else if c == "cryptsetup"
    then first_argument args == "open" && is_crypt k (mapped (last_argument args))
    else false
takes k _ = false

-- `losetup --show` prints the device that it takes, and a line break.
abbrev named : Held → String → Bool
named (loop_device dev) output = trim_suffix output "\n" == dev
named _ output = true

abbrev gives : Held → Call → Bool
gives k (command c args) =
    if c == "umount"
    then mounts k (last_argument args)
    else if c == "losetup"
    then first_argument args == "-d" && is_loop k (last_argument args)
    else if c == "kpartx"
    then first_argument args == "-d" && is_maps k (last_argument args)
    else if c == "cryptsetup"
    then first_argument args == "close" && is_crypt k (last_argument args)
    else false
gives k _ = false

-- `mount … target` takes the target and `umount target` gives it back. `losetup --show` takes the
-- device that it prints and `losetup -d` gives back the one that it names; `kpartx -a` and `-d` name
-- the device, and `cryptsetup close` names the path of what `cryptsetup open` has opened.
abbrev pub held : Held → Resource
held k = record { takes = takes k; named = named k; gives = gives k }
