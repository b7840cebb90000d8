-- ===== src/Tests/CommandRuns.antt =====
-- The commands build and convert on the host where every call succeeds.
use d2vm.Base.{◌+◌, ◌≤◌, ◌≡◌, refl, inl, String, true, false, [], List, ok, err}
use d2vm.Host.{Event, ◌>>=◌, lift}
use d2vm.Host.Mounts.{loop_device, held}
use d2vm.Host.Processes.{processes}
use d2vm.Host.Rules.{taken, given}
use d2vm.Dockerfile.Templates.{render}
use d2vm.ConvertOptions.{zero_options, apply}
use d2vm.Flags.{validate_flags, check_platform}
use d2vm.Commands.{CommandFlags, options_of, needs_docker, is_root, build_cmd, convert_cmd}
use d2vm.Commands.Cleans.{build_cmd-releases, convert_cmd-releases}
use d2vm.Commands.Options.{build_cmd-refused}
use d2vm.Host.{Host}
use d2vm.Builder.Defs.{no_devices}
use d2vm.Builder.New.{Request}
use d2vm.Convert.{request_of}
use d2vm.Commands.Requests.{IsBuildable, validate_flags-IsBuildable}
use d2vm.Defaults.{checked_flags}
use d2vm.Defaults.Laws.{completed, checked_flags-accepted}
use d2vm.Tests.Requests.{are_valid}
use d2vm.Tests.Machine.{machine, start, flags, valid_flags, debian_12}
use d2vm.Tests.Targets.{settings}

abbrev command_flags : CommandFlags
command_flags = record {
  flags = flags;
  size = "10G";
  password = "root";
  cmd_line_extra = "";
  network_manager = "";
  raw = false;
  boot_size = 100;
  keep_cache = false;
  pull = true;
  hostname = "vm";
  dns = [];
  dns_search = [];
  container_disk_tag = "";
  file = "";
  build_args = [];
  settings = settings;
}

abbrev built : List Event
built = (build_cmd render command_flags "." [] machine (start tt)).1.log

build_cmd-releases_example :
    taken (held (loop_device "loop0")) built + 0 ≤ given (held (loop_device "loop0")) built + 0
build_cmd-releases_example =
    build_cmd-releases (loop_device "loop0") render command_flags "." [] machine (start tt)

abbrev converted : List Event
converted = (convert_cmd render command_flags "debian:12" [] machine (start tt)).1.log

convert_cmd-releases_example :
    taken (held (loop_device "loop0")) converted + 0
    ≤ given (held (loop_device "loop0")) converted + 0
convert_cmd-releases_example =
    convert_cmd-releases (loop_device "loop0") render command_flags "debian:12" [] machine
      (start tt)

-- Flags for a platform that is not supported.
abbrev bad_flags : CommandFlags
bad_flags = record command_flags { flags = record flags { platform = "windows" } }

is_here : needs_docker machine ≡ false
unfolding needs_docker is_root
is_here = refl

abbrev refusal : String
refusal = "unexpected platform: windows, supported platforms: linux/amd64, linux/arm64"

are_refused : (validate_flags bad_flags.flags machine (start tt)).0 ≡ err refusal
unfolding validate_flags check_platform ◌>>=◌ lift
are_refused = refl

build_cmd-refused_example :
    ((build_cmd render bad_flags "." [] machine (start tt)).0 ≡ err refusal)
    × (taken processes (build_cmd render bad_flags "." [] machine (start tt)).1.log ≡ 0)
build_cmd-refused_example =
    build_cmd-refused render bad_flags "." [] machine (start tt) refusal is_here are_refused

abbrev asked_for : Request
asked_for =
    request_of (apply (options_of command_flags valid_flags 10 true) zero_options) debian_12
      "/tmp/d2vm" "b2a1"

validate_flags-IsBuildable_example : IsBuildable asked_for
validate_flags-IsBuildable_example =
    validate_flags-IsBuildable command_flags valid_flags 10 true debian_12 "/tmp/d2vm" "b2a1"
      machine (start no_devices) flags are_valid

-- A machine without files.
abbrev bare : Host
bare = record machine { system = λ log call. err "no such file" }

checked_flags-accepted_example :
    (validate_flags (checked_flags bare "b2a1") bare (start tt)).0
    ≡ ok (completed "amd64" (checked_flags bare "b2a1"))
checked_flags-accepted_example =
    checked_flags-accepted bare (start tt) "b2a1" "no such file" refl (inl refl) refl refl
