-- ===== src/Commands.antt =====
-- cmd/d2vm/build.go, convert.go and main.go: the commands build and convert.
-- `render` stands for the execution of a Dockerfile's template by text/template, and `os_args` for
-- the arguments behind the command's name.
pub mod Cleans
pub mod Options
pub mod Requests
pub mod Completes
use d2vm.Base.{
  ℕ, String, ◌<>◌, Bool, not, ◌&&◌, ◌||◌, ◌==◌, Option, none, some, List, [], ◌∷◌, Result, ok, err,
  eqb, if◌then◌else◌,
}
use d2vm.Text.{has_prefix}
use d2vm.Text.Numbers.{ℤ, atoi}
use d2vm.Text.Paths.{join_path, base, dir, rel}
use d2vm.Host.{
  Host, Exec, abs_path, chown, pure, raise, lift, asks, ◌>>=◌, ◌>>◌, system, system_, set_debug,
}
use d2vm.Docker
use d2vm.Docker.{image_list, run_d2vm}
use d2vm.QemuImg.{Settings}
use d2vm.ContainerDisk.{maybe_make_container_disk}
use d2vm.Dockerfile.{Dockerfile}
use d2vm.ConvertOptions.{
  ConvertOption, with_size, with_password, with_output, with_cmd_line_extra, with_network_manager,
  with_boot_loader, with_raw, with_split_boot, with_boot_size, with_boot_fs, with_luks_password,
  with_keep_cache, with_platform, with_pull, with_hostname, with_dns, with_dns_search,
  with_extra_hosts,
}
use d2vm.Convert.{convert}
use d2vm.Flags.{Flags, validate_flags}

-- The variables of the package: those that validateFlags uses, and the other ones. The settings
-- are d2vm.Image and d2vm.Version.
pub record CommandFlags : Type 0 where
  pub flags : Flags
  pub size : String
  pub password : String
  pub cmd_line_extra : String
  pub network_manager : String
  pub raw : Bool
  pub boot_size : ℕ
  pub keep_cache : Bool
  pub pull : Bool
  pub hostname : String
  pub dns : List String
  pub dns_search : List String
  pub container_disk_tag : String
  pub file : String
  pub build_args : List String
  pub settings : Settings

-- isRoot
unfoldable pub is_root : Host → Bool
is_root h = eqb h.euid 0

-- `runtime.GOOS != "linux" || !isRoot()`
unfoldable pub needs_docker : Host → Bool
unfolding is_root
needs_docker h = not (h.goos == "linux") || not (is_root h)

sudo_id : Option String → Option ℤ
sudo_id none = none
sudo_id (some v) = if v == "" then none else atoi v

-- sudoUser: `none` is false.
unfoldable pub sudo_user : Host → Option ℤ
unfolding sudo_id
sudo_user h = if not (h.goos == "linux") then none else sudo_id (h.lookup_env "SUDO_UID")

chown_to : {M : Type 0} → String → Option ℤ → Exec M (Unit {0})
chown_to output none = pure tt
chown_to output (some uid) = system_ (chown output uid)

-- The options of the call of Convert; `pull` differs between the commands.
unfoldable pub options_of : CommandFlags → Flags → ℕ → Bool → List ConvertOption
options_of c f size pull =
    with_size size
    ∷ with_password c.password
    ∷ with_output f.output
    ∷ with_cmd_line_extra c.cmd_line_extra
    ∷ with_network_manager c.network_manager
    ∷ with_boot_loader f.bootloader
    ∷ with_raw c.raw
    ∷ with_split_boot f.split_boot
    ∷ with_boot_size c.boot_size
    ∷ with_boot_fs f.boot_fs
    ∷ with_luks_password f.luks_password
    ∷ with_keep_cache c.keep_cache
    ∷ with_platform f.platform
    ∷ with_pull pull
    ∷ with_hostname c.hostname
    ∷ with_dns c.dns
    ∷ with_dns_search c.dns_search
    ∷ with_extra_hosts f.extra_hosts
    ∷ []

-- What both commands do with the finished image.
finish : {M : Type 0} → CommandFlags → Flags → Exec M (Unit {0})
unfolding chown_to
finish c f = do
  sudo ← asks sudo_user
  chown_to f.output sudo
  maybe_make_container_disk c.settings c.container_disk_tag f.push f.output f.platform

-- parseSize; datasize's UnmarshalText is the host's.
unfoldable pub parse_size : {M : Type 0} → String → Exec M ℕ
parse_size s = do parse ← asks (λ h. h.parse_size); lift (parse s)

-- The argument `v` as the container sees it.
container_arg : String → String → String → String → String → String → Result String
container_arg file output context dir_in docker_file v =
    if v == file
    then elim (rel dir_in docker_file) [
      | none ↦ err (
          "failed to construct Dockerfile container paths: Rel: can't make "
          <> (docker_file <> (" relative to " <> dir_in)))
      | some path ↦ ok (join_path ("/in" ∷ path ∷ []))
    ]
    else if v == output
    then ok (join_path ("/out" ∷ base output ∷ []))
    else if v == context
    then ok "/in"
    else ok v

cons_ok : String → Result (List String) → Result (List String)
cons_ok a (ok rest) = ok (a ∷ rest)
cons_ok a (err e) = err e

first_ok : Result String → Result (List String) → Result (List String)
unfolding cons_ok
first_ok (err e) rest = err e
first_ok (ok a) rest = cons_ok a rest

-- The loop over the arguments.
unfoldable pub container_args :
    String → String → String → String → String → List String → Result (List String)
unfolding container_arg first_ok
container_args file output context dir_in docker_file [] = ok []
container_args file output context dir_in docker_file (v ∷ args) =
    first_ok (container_arg file output context dir_in docker_file v)
      (container_args file output context dir_in docker_file args)

-- The file's name, or the Dockerfile of the context.
unfoldable pub docker_file_of : CommandFlags → String → String
docker_file_of c context = if c.file == "" then join_path (context ∷ "Dockerfile" ∷ []) else c.file

build_in_docker : {M : Type 0} → CommandFlags → String → List String → Exec M (Unit {0})
build_in_docker c context os_args = do
  ctx_abs_path ← system (abs_path context)
  let file = docker_file_of c context
  docker_file_abs_path ← system (abs_path file)
  if not (has_prefix docker_file_abs_path ctx_abs_path)
      then raise "Dockerfile must be in the context directory path"
      else (do
        output_path ← system (abs_path c.flags.output)
        dargs ←
            lift
              (container_args file c.flags.output context ctx_abs_path docker_file_abs_path os_args)
        run_d2vm c.settings.docker_image_name c.settings.docker_image_version ctx_abs_path
            (dir output_path) "build" dargs)

-- The loop that replaces the first argument that is the output.
unfoldable pub replace_output : String → List String → List String
replace_output output [] = []
replace_output output (v ∷ args) =
    let rest = replace_output output args in
    if v == output then join_path ("/out" ∷ base output ∷ []) ∷ args else v ∷ rest

convert_in_docker : {M : Type 0} → CommandFlags → List String → Exec M (Unit {0})
unfolding replace_output
convert_in_docker c os_args = do
  path ← system (abs_path c.flags.output)
  let out = dir path
  run_d2vm c.settings.docker_image_name c.settings.docker_image_version out out "convert"
      (replace_output c.flags.output os_args)

is_only : String → List String → Bool
is_only img (i ∷ []) = i == img
is_only img _ = Bool.false

-- Whether the image is there already; with --pull nobody looks.
found_locally : {M : Type 0} → Bool → String → Exec M Bool
unfolding is_only
found_locally pull img =
    if pull then pure Bool.false else (do imgs ← image_list img; pure (is_only img imgs))

fetch_image : {M : Type 0} → CommandFlags → Flags → String → Exec M (Unit {0})
unfolding found_locally
fetch_image c f img = do
  found ← found_locally c.pull img
  if c.pull || not found then Docker.pull f.platform img else pure tt

module _ (render : Dockerfile → Result String) where
  build_here : {M : Type 0} → CommandFlags → String → Exec M (Unit {0})
  build_here c context = do
    f ← validate_flags c.flags
    size ← parse_size c.size
    Docker.build c.pull f.tag (docker_file_of c context) context f.platform c.build_args
    convert render f.tag (options_of c f size Bool.false)
    finish c f

  -- buildCmd
  unfoldable pub build_cmd : {M : Type 0} → CommandFlags → String → List String → Exec M (Unit {0})
  unfolding build_in_docker build_here finish
  build_cmd c context os_args = do
    outside ← asks needs_docker
    if outside then build_in_docker c context os_args else build_here c context

  convert_here : {M : Type 0} → CommandFlags → String → Exec M (Unit {0})
  convert_here c img = do
    f ← validate_flags c.flags
    size ← parse_size c.size
    fetch_image c f img
    convert render img (options_of c f size c.pull)
    finish c f

  -- convertCmd
  unfoldable pub convert_cmd :
      {M : Type 0} → CommandFlags → String → List String → Exec M (Unit {0})
  unfolding convert_in_docker convert_here finish fetch_image
  convert_cmd c img os_args = do
    outside ← asks needs_docker
    if outside then convert_in_docker c os_args else convert_here c img

-- PersistentPreRun of the root command: the host on which the command then runs. An unknown time
-- format ends the process.
unfoldable pub pre_run : String → Bool → Host → Result Host
pre_run time_format verbose h =
    if time_format == "full"
      || time_format == "f"
      || time_format == "relative"
      || time_format == "rel"
      || time_format == "r"
      || time_format == "none"
      || time_format == ""
    then ok (set_debug verbose h)
    else err ("invalid time format: " <> (time_format <> ". Valid format: 'relative', 'full'"))
