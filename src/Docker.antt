-- ===== src/Docker.antt =====
-- pkg/docker/docker.go: the docker commands.
pub mod Laws
use Prim.Native.String.{len}
use d2vm.Base.{
  ℕ, String, ◌<>◌, Bool, true, false, not, ◌&&◌, ◌==◌, List, [], ◌∷◌, ◌++◌, leb, any, map,
  if◌then◌else◌,
}
use Prim.Native.String.{char_at}
use d2vm.Text.{split, replace_char, trim_suffix}
use d2vm.Text.Numbers.{decimal}
use d2vm.Text.Paths.{join_path}
use d2vm.Host.{Exec, getwd, pure, raise, asks, ◌>>=◌, ◌>>◌, system, run, run_out, run_command}

unfoldable pub docker_socket : String → String
docker_socket goos = if goos == "windows" then "//var/run/docker.sock" else "/var/run/docker.sock"

unfoldable pub format_img_name : String → String
unfolding replace_char
format_img_name name = replace_char b'/' (char_at "_" 0) (replace_char b':' (char_at "-" 0) name)

unfoldable pub cmd : {M : Type 0} → List String → Exec M (Unit {0})
cmd args = run "docker" args

unfoldable pub cmd_out : {M : Type 0} → List String → Exec M (String × String)
cmd_out args = run_out "docker" args

add_build_args : List String → List String
add_build_args [] = []
add_build_args (v ∷ args) = "--build-arg" ∷ v ∷ add_build_args args

unfoldable pub build_args : Bool → String → String → String → String → List String → List String
unfolding add_build_args
build_args pull tag dockerfile dir platform args =
    let file = if dockerfile == "" then join_path (dir ∷ "Dockerfile" ∷ []) else dockerfile in
    ("image" ∷ "build" ∷ "-t" ∷ tag ∷ "-f" ∷ file ∷ "--platform" ∷ platform ∷ [])
    ++ ((if pull then "--pull" ∷ [] else []) ++ (add_build_args args ++ (dir ∷ [])))

unfoldable pub build :
    {M : Type 0} → Bool → String → String → String → String → List String → Exec M (Unit {0})
build pull tag dockerfile dir platform args = cmd (build_args pull tag dockerfile dir platform args)

tag_each : {M : Type 0} → String → List String → Exec M (Unit {0})
tag_each img [] = pure tt
tag_each img (t ∷ tags) = do cmd ("image" ∷ "tag" ∷ img ∷ t ∷ []); tag_each img tags

unfoldable pub tag : {M : Type 0} → String → List String → Exec M (Unit {0})
unfolding tag_each
tag img [] = raise "no tags specified"
tag img (t ∷ tags) = tag_each img (t ∷ tags)

unfoldable pub remove : {M : Type 0} → String → Exec M (Unit {0})
remove tag = cmd ("image" ∷ "rm" ∷ tag ∷ [])

-- The lines of a bufio.Scanner: the part behind the last line break is a line if it is not empty,
-- and a carriage return at the end of a line is dropped.
scanned : List String → List String
scanned [] = []
scanned (last ∷ []) = if last == "" then [] else trim_suffix last "\r" ∷ []
scanned (s ∷ t ∷ rest) = trim_suffix s "\r" ∷ scanned (t ∷ rest)

unfoldable pub scan_lines : String → List String
unfolding scanned split
scan_lines text = scanned (split 10 text)

-- The Scanner stops with an error at a line that fills its buffer of 64 KiB.
unfoldable pub image_list : {M : Type 0} → String → Exec M (List String)
image_list tag = do
  (o, _) ← cmd_out ("image" ∷ "ls" ∷ "--format={{ .Repository }}:{{ .Tag }}" ∷ tag ∷ [])
  if any (λ line. leb 65536 (len line)) (split 10 o)
      then raise "bufio.Scanner: token too long"
      else pure (scan_lines o)

unfoldable pub image_save : {M : Type 0} → String → String → Exec M (Unit {0})
image_save tag file = cmd ("image" ∷ "save" ∷ "-o" ∷ file ∷ tag ∷ [])

unfoldable pub pull : {M : Type 0} → String → String → Exec M (Unit {0})
pull platform tag = cmd ("image" ∷ "pull" ∷ "--platform" ∷ platform ∷ tag ∷ [])

unfoldable pub push : {M : Type 0} → String → Exec M (Unit {0})
push tag = cmd ("image" ∷ "push" ∷ tag ∷ [])

unfoldable pub run_interactive_and_remove : {M : Type 0} → List String → Exec M (Unit {0})
run_interactive_and_remove args = run_command "docker" ("run" ∷ "--rm" ∷ "-it" ∷ args)

unfoldable pub run_and_remove : {M : Type 0} → List String → Exec M (Unit {0})
run_and_remove args = cmd ("run" ∷ "--rm" ∷ args)

abbrev or_else : String → String → String
or_else d s = if s == "" then d else s

unfoldable pub run_d2vm :
    {M : Type 0} → String → String → String → String → String → List String → Exec M (Unit {0})
run_d2vm image version dir_in dir_out command args = do
  pwd ← system getwd
  interactive ← asks (λ h. h.interactive)
  uid ← asks (λ h. h.uid)
  goos ← asks (λ h. h.goos)
  run_command "docker" (
      ("run" ∷ "--rm" ∷ [])
      ++ ((if interactive then "-i" ∷ "-t" ∷ [] else [])
          ++ (("--privileged"
                ∷ "-e"
                ∷ ("SUDO_UID=" <> decimal uid)
                ∷ "-v"
                ∷ (docker_socket goos <> ":/var/run/docker.sock")
                ∷ "-v"
                ∷ (or_else pwd dir_in <> ":/in")
                ∷ "-v"
                ∷ (or_else pwd dir_out <> ":/out")
                ∷ "-w"
                ∷ "/d2vm"
                ∷ (or_else "linkacloud/d2vm" image <> (":" <> or_else "latest" version))
                ∷ command
                ∷ [])
              ++ args)))
