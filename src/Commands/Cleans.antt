-- ===== src/Commands/Cleans.antt =====
-- What the commands build and convert leave behind on their host.
use d2vm.Base.{◌+◌, ◌≤◌, String, Bool, Option, none, some, List, Result, arith}
use d2vm.Text.Numbers.{ℤ}
use d2vm.Host.{Host, World}
use d2vm.Host.Rules.{taken, given, Balanced, balance_rules}
use d2vm.Host.Within.{Within, within_rules}
use d2vm.Host.Mounts.{Held, held}
use d2vm.Dockerfile.{Dockerfile}
use d2vm.Flags.{Flags}
use d2vm.Flags.Laws.{validate_flags-Balanced}
use d2vm.Files.Laws.{wrap-Balanced}
use d2vm.Docker
use d2vm.QemuImg
use d2vm.ContainerDisk.{make_container_disk, maybe_make_container_disk}
use d2vm.Convert.Cleans.{convert-Within, docker_build-Balanced}
use d2vm.Commands.{
  CommandFlags, parse_size, finish, chown_to, build_in_docker, convert_in_docker, fetch_image,
  found_locally, build_here, convert_here, build_cmd, convert_cmd,
}

module _ (k : Held) {M : Type 0} where
  parse_size-Balanced : (s : String) → Balanced (held k) {M = M} (parse_size s)
  unfolding parse_size
  parse_size-Balanced s = search balance_rules

  qemu_img-Balanced :
      (s : QemuImg.Settings) (format source dest : String)
      → Balanced (held k) {M = M} (QemuImg.convert s format source dest)
  unfolding QemuImg.convert Docker.run_and_remove Docker.cmd
  qemu_img-Balanced s format source dest = search balance_rules depth 9

  make_container_disk-Balanced :
      (s : QemuImg.Settings) (path tag platform : String)
      → Balanced (held k) {M = M} (make_container_disk s path tag platform)
  unfolding make_container_disk
  make_container_disk-Balanced s path tag platform =
      search (balance_rules, wrap-Balanced, qemu_img-Balanced, docker_build-Balanced) depth 14

  maybe-Balanced :
      (s : QemuImg.Settings) (tag : String) (push : Bool) (output platform : String)
      → Balanced (held k) {M = M} (maybe_make_container_disk s tag push output platform)
  unfolding maybe_make_container_disk Docker.push Docker.cmd
  maybe-Balanced s tag push output platform =
      search (balance_rules, wrap-Balanced, make_container_disk-Balanced) depth 9

  chown_to-Balanced :
      (output : String) (uid : Option ℤ) → Balanced (held k) {M = M} (chown_to output uid)
  unfolding chown_to
  chown_to-Balanced output none = search balance_rules
  chown_to-Balanced output (some uid) = search balance_rules

  finish-Balanced : (c : CommandFlags) (f : Flags) → Balanced (held k) {M = M} (finish c f)
  unfolding finish
  finish-Balanced c f = search (balance_rules, chown_to-Balanced, maybe-Balanced)

  fetch_image-Balanced :
      (c : CommandFlags) (f : Flags) (img : String)
      → Balanced (held k) {M = M} (fetch_image c f img)
  unfolding fetch_image found_locally Docker.image_list Docker.pull Docker.cmd Docker.cmd_out
  fetch_image-Balanced c f img = search balance_rules depth 12

  run_d2vm-Balanced :
      (image version dir_in dir_out command : String) (args : List String)
      → Balanced (held k) {M = M} (Docker.run_d2vm image version dir_in dir_out command args)
  unfolding Docker.run_d2vm
  run_d2vm-Balanced image version dir_in dir_out command args = search balance_rules depth 9

  build_in_docker-Balanced :
      (c : CommandFlags) (context : String) (os_args : List String)
      → Balanced (held k) {M = M} (build_in_docker c context os_args)
  unfolding build_in_docker
  build_in_docker-Balanced c context os_args = search (balance_rules, run_d2vm-Balanced) depth 9

  convert_in_docker-Balanced :
      (c : CommandFlags) (os_args : List String)
      → Balanced (held k) {M = M} (convert_in_docker c os_args)
  unfolding convert_in_docker
  convert_in_docker-Balanced c os_args = search (balance_rules, run_d2vm-Balanced)

  ruleset command_rules = (
    within_rules, balance_rules, validate_flags-Balanced, parse_size-Balanced,
    docker_build-Balanced, finish-Balanced, fetch_image-Balanced, build_in_docker-Balanced,
    convert_in_docker-Balanced, convert-Within,
  )

module _ (k : Held) {M : Type 0} (render : Dockerfile → Result String) where
  build_cmd-Within :
      (c : CommandFlags) (context : String) (os_args : List String)
      → Within (held k) {M = M} 0 0 0 (build_cmd render c context os_args)
  unfolding build_cmd build_here
  build_cmd-Within c context os_args = search command_rules depth 14

  -- Whatever fails on whatever host, the command build tries to give back each directory that is
  -- mounted on, each loop device, each device whose partitions are mapped and each opened encrypted
  -- partition, by its own name, at least as often as it took it.
  pub build_cmd-releases :
      (c : CommandFlags) (context : String) (os_args : List String) (h : Host) (w : World M)
      → taken (held k) (build_cmd render c context os_args h w).1.log + given (held k) w.log
        ≤ given (held k) (build_cmd render c context os_args h w).1.log + taken (held k) w.log
  build_cmd-releases c context os_args h w =
      ground (arith, (build_cmd-Within c context os_args).at h w)

  convert_cmd-Within :
      (c : CommandFlags) (img : String) (os_args : List String)
      → Within (held k) {M = M} 0 0 0 (convert_cmd render c img os_args)
  unfolding convert_cmd convert_here
  convert_cmd-Within c img os_args = search command_rules depth 14

  -- Whatever fails on whatever host, the command convert tries to give back each directory that is
  -- mounted on, each loop device, each device whose partitions are mapped and each opened encrypted
  -- partition, by its own name, at least as often as it took it.
  pub convert_cmd-releases :
      (c : CommandFlags) (img : String) (os_args : List String) (h : Host) (w : World M)
      → taken (held k) (convert_cmd render c img os_args h w).1.log + given (held k) w.log
        ≤ given (held k) (convert_cmd render c img os_args h w).1.log + taken (held k) w.log
  convert_cmd-releases c img os_args h w = ground (arith, (convert_cmd-Within c img os_args).at h w)
