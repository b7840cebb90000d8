-- ===== src/Hetzner.antt =====
-- cmd/d2vm/run/hetzner.go: a server in the Hetzner Cloud that runs the image. Requests to the
-- cloud and operations over SSH are calls of the host, whose answers are handles; `Cloud` reads
-- them.
pub mod Quiet
pub mod Waits
pub mod Writes
pub mod Cleans
use d2vm.Base.{
  ℕ, zero, suc, String, ◌<>◌, Bool, true, false, not, ◌&&◌, ◌==◌, Option, none, some, List, [], ◌∷◌,
  ◌++◌, Result, ok, err, if◌then◌else◌,
}
use d2vm.Text.{to_lower, has_prefix, trim_suffix, words, remove_first}
use d2vm.Text.Numbers.{ℤ, decimal_int}
use d2vm.Text.Paths.{join_path, base, dir}
use d2vm.Host.{
  Call, Exec, mkdir_all, remove_all, open_file, close_file, cloud, ssh, pure, raise, lift, asks,
  ◌>>=◌, ◌>>◌, deferring, attempt, handling, system, system_, gets, modify, run_command,
}
use d2vm.Host.Routines.{Routine, ends, calls, both}
use d2vm.QemuImg
use d2vm.QemuImg.{Settings, ImgInfo, info}
use d2vm.RunUtil.{get_string_value}
use d2vm.RunUtil.Sizes.{parse_int}

-- The variables of the package that the command reads.
pub record HetznerFlags : Type 0 where
  pub vm_type : String
  pub token : String
  pub datacenter : String
  pub server_name : String
  pub ssh_user : String
  pub ssh_key_path : String
  pub remove : Bool
  pub settings : Settings

-- What the fields of hcloud's results are for a handle.
pub record Cloud : Type 0 where
  pub images : String → List String
  pub server_ip : String → String
  pub root_password : String → String

abbrev vm_block_path : String
vm_block_path = "/dev/sda"

abbrev sparsecat_path : String
sparsecat_path = "/usr/local/bin/sparsecat"

-- Sparsecat of util.go: the name of the embedded program.
unfoldable pub sparsecat : String → Result String
sparsecat arch =
    if arch == "amd64"
    then ok "sparsecat-linux-amd64"
    else if arch == "arm64"
    then ok "sparsecat-linux-arm64"
    else err ("unsupported architecture: " <> arch)

-- The architectures of Go and of hcloud.
unfoldable pub server_arch : String → String × String
server_arch vm_type =
    if has_prefix (to_lower vm_type) "cax" then ("arm64", "arm") else ("amd64", "x86")

ssh_ : {M : Type 0} → String → List String → Exec M (Unit {0})
ssh_ op args = system_ (ssh op args)

remote : {M : Type 0} → String → Exec M String
remote cmd = system (ssh "run" (cmd ∷ []))

-- A session that is closed when all that follows has ended.
with_session : {M A : Type 0} → Exec M A → Exec M A
unfolding ssh_
with_session m = do ssh_ "new_session" []; deferring (ssh_ "close_session" []) m

-- dialSSHWithTimeout, whose timer runs off after that many rounds.
unfoldable pub dial_within : {M : Type 0} → ℕ → String → String → String → Exec M (Unit {0})
unfolding ssh_
dial_within zero server user password = raise "timeout while trying to connect to the server"
dial_within (suc n) server user password =
    handling (ssh_ "dial" (server ∷ user ∷ password ∷ [])) (λ _. pure tt)
      (λ _. dial_within n server user password)

-- How many rounds a timer leaves.
rounds_left : {M : Type 0} → Exec M ℕ
rounds_left h w = asks (λ h. h.rounds w.log) h w

-- The loop that waits for the server's SSH port.
unfoldable pub wait_within : {M : Type 0} → ℕ → String → Exec M (Unit {0})
unfolding ssh_
wait_within zero server = raise "ssh connection timeout"
wait_within (suc n) server =
    handling (ssh_ "probe" (server ∷ [])) (λ _. attempt (ssh_ "close_probe" []) λ _. pure tt)
      (λ _. wait_within n server)

-- WatchProgress, and its first error.
watch : {M : Type 0} → String → Exec M (Unit {0})
watch action = system_ (cloud "watch_progress" (action ∷ []))

-- What a goroutine sends when its command has been answered.
sent : Result String → Result (Unit {0})
sent (ok output) = ok tt
sent (err e) = err e

-- A goroutine's session, closed before the result is sent.
run_in : Call → Result String → Routine
unfolding sent
run_in call (err e) = ends (err e)
run_in call (ok s) =
    calls call λ answer. calls (ssh "close_session" []) λ closed. ends (sent answer)

in_session : Call → Routine
unfolding run_in
in_session call = calls (ssh "new_session" []) (run_in call)

pub install_utils : Call
install_utils = ssh "run" ("apt update && apt install -y cloud-guest-utils" ∷ [])

pub write_image : String → String → Call
write_image goos img_path = ssh "run_with_input" (
    (if goos == "linux"
      then sparsecat_path <> (" -r -disable-sparse-target -of " <> vm_block_path)
      else "dd of=" <> vm_block_path)
    ∷ img_path
    ∷ [])

-- Both goroutines, and the wait for them.
unfoldable pub transfer : {M : Type 0} → String → String → Exec M (Unit {0})
unfolding in_session install_utils write_image
transfer goos img_path = both (in_session install_utils) (in_session (write_image goos img_path))

last_word : List String → Option String
last_word [] = none
last_word (s ∷ []) = some s
last_word (s ∷ t ∷ rest) = last_word (t ∷ rest)

part_number_of : Option String → Result ℤ
part_number_of none = err "runtime error: index out of range [-1]"
part_number_of (some part) = parse_int (remove_first vm_block_path part)

-- The number of the last partition that ls lists; with none listed, the code panics.
unfoldable pub part_number : String → Result ℤ
unfolding last_word part_number_of
part_number output = part_number_of (last_word (words (trim_suffix output "\n")))

ssh_args : HetznerFlags → String → List String
ssh_args f ip =
    ("-o" ∷ "StrictHostKeyChecking=no" ∷ "-o" ∷ "UserKnownHostsFile=/dev/null" ∷ [])
    ++ ((if not (f.ssh_key_path == "") then "-i" ∷ f.ssh_key_path ∷ [] else [])
        ++ ((f.ssh_user <> ("@" <> ip)) ∷ []))

-- After the reboot the server stays: `remove = false`.
connect : HetznerFlags → String → String → Exec Bool (Unit {0})
unfolding watch ssh_args rounds_left
connect f server ip = do
  action ← system (cloud "reboot" (server ∷ []))
  watch action
  modify (λ _. false)
  rounds ← rounds_left
  wait_within rounds ip
  run_command "ssh" (ssh_args f ip)

-- The partition is grown, checked and its file system extended, each in a session of its own.
grow : HetznerFlags → String → String → Exec Bool (Unit {0})
unfolding with_session remote
grow f server ip = with_session (do
  output ← remote ("ls " <> (vm_block_path <> "*"))
  number ← lift (part_number output)
  let part = vm_block_path <> decimal_int number
  with_session (do
    remote ("growpart " <> (vm_block_path <> (" " <> decimal_int number)))
    with_session (do
      remote ("e2fsck -yf " <> part)
      with_session (do remote ("resize2fs " <> part); connect f server ip))))

-- With the SSH connection to the rescue system.
rescue : HetznerFlags → String → String → String → Exec Bool (Unit {0})
unfolding transfer ssh_
rescue f img_path server ip = do
  ssh_ "sftp" []
  ssh_ "create" (sparsecat_path ∷ [])
  ssh_ "chmod" (sparsecat_path ∷ "0755" ∷ [])
  deferring (ssh_ "close_file" (sparsecat_path ∷ [])) (do
    ssh_ "copy" (sparsecat_path ∷ [])
    ssh_ "close_file" (sparsecat_path ∷ [])
    goos ← asks (λ h. h.goos)
    transfer goos img_path
    grow f server ip)

-- From the created server to the end.
unfoldable pub set_up : Cloud → HetznerFlags → String → String → Exec Bool (Unit {0})
unfolding rescue grow connect watch ssh_ rounds_left
set_up c f img_path server = do
  let ip = c.server_ip server
  watch server
  rescued ← system (cloud "enable_rescue" (server ∷ []))
  watch rescued
  powered ← system (cloud "power_on" (server ∷ []))
  watch powered
  rounds ← rounds_left
  dial_within rounds ip "root" (c.root_password rescued)
  deferring (ssh_ "close" []) (rescue f img_path server ip)

-- The deferred function, whose action has the variable `remove` as its memory: the server is
-- deleted unless it is to stay. If that fails, the process ends with the error.
unfoldable pub removing : HetznerFlags → String → Exec Bool (Unit {0}) → Exec Bool (Unit {0})
removing f server m = attempt m λ r. do
  remove ← gets (λ remove. remove)
  if not remove && not f.remove
      then lift r
      else handling (system (cloud "delete_server" (server ∷ []))) (λ _. lift r)
          (λ e. raise ("failed to remove server: " <> e))

first_image : List String → Result String
first_image [] = err "no image found with name ubuntu-20.04"
first_image (i ∷ images) = ok i

-- From the client to the created server.
create_server : Cloud → HetznerFlags → Exec Bool String
unfolding first_image
create_server c f = do
  server_type ← system (cloud "server_type" (f.vm_type ∷ []))
  lift (sparsecat (server_arch f.vm_type).0)
  listed ← system (cloud "list_images" ("ubuntu-20.04" ∷ (server_arch f.vm_type).1 ∷ []))
  image ← lift (first_image (c.images listed))
  location ← system (cloud "location" (f.datacenter ∷ []))
  system (cloud "create_server" (f.server_name ∷ server_type ∷ image ∷ location ∷ []))

unfoldable pub run_image : Cloud → HetznerFlags → String → Exec Bool (Unit {0})
unfolding create_server
run_image c f img_path = do
  system_ (open_file img_path)
  deferring (system_ (close_file img_path)) (do
    server ← create_server c f
    modify (λ _. true)
    removing f server (set_up c f img_path server))

module _ (decode : String → Result ImgInfo) where
  -- runHetzner
  unfoldable pub run_hetzner : Cloud → HetznerFlags → String → Exec Bool (Unit {0})
  run_hetzner c f img_path = do
    i ← info decode f.settings img_path
    temp_dir ← asks (λ h. h.temp_dir)
    let raw_path = join_path (temp_dir ∷ "d2vm" ∷ "run" ∷ (base img_path <> ".raw") ∷ [])
    if i.format == "raw" then run_image c f img_path else (do
      system_ (mkdir_all (dir raw_path) 0o755)
      deferring (system_ (remove_all raw_path)) (do
        QemuImg.convert f.settings "raw" img_path raw_path
        info decode f.settings raw_path
        run_image c f raw_path))
