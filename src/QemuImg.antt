-- ===== src/QemuImg.antt =====
-- pkg/qemu_img/qemu_img.go: Convert, by the qemu-img of the host or the one of a Docker image.
use d2vm.Text.Numbers.{ℤ}
use d2vm.Host.{lift, run_combined}
use d2vm.Base.{Bool, Result, String, ◌<>◌, not, ◌==◌, [], ◌∷◌, if◌then◌else◌}
use d2vm.Text.Paths.{join_path, base, dir}
use d2vm.Host.{Exec, abs_path, look_path, ◌>>=◌, pure, raise, handling, system, run}
use d2vm.Docker.{run_and_remove}

-- DockerImageName and DockerImageVersion
pub record Settings : Type 0 where
  pub docker_image_name : String
  pub docker_image_version : String

-- filepath.Abs with the error that is wrapped around it
absolute : {M : Type 0} → String → Exec M String
absolute path =
    handling (system (abs_path path)) (λ p. pure p)
      (λ e. raise ("failed to get absolute path for \"" <> (path <> ("\": " <> e))))

convert_in_docker : {M : Type 0} → Settings → String → String → String → Exec M (Unit {0})
convert_in_docker s format source dest = do
  in_abs ← absolute source
  out_abs ← absolute dest
  run_and_remove (
      "-v"
      ∷ (dir in_abs <> ":/in")
      ∷ "-v"
      ∷ (dir out_abs <> ":/out")
      ∷ "--entrypoint"
      ∷ "qemu-img"
      ∷ (s.docker_image_name <> (":" <> s.docker_image_version))
      ∷ "convert"
      ∷ "-O"
      ∷ format
      ∷ join_path ("/in" ∷ base in_abs ∷ [])
      ∷ join_path ("/out" ∷ base out_abs ∷ [])
      ∷ [])

unfoldable pub convert : {M : Type 0} → Settings → String → String → String → Exec M (Unit {0})
unfolding convert_in_docker absolute
convert s format source dest =
    handling (system (look_path "qemu-img"))
      (λ path.
        if not (path == "")
        then run "qemu-img" ("convert" ∷ "-O" ∷ format ∷ source ∷ dest ∷ [])
        else convert_in_docker s format source dest)
      (λ _. convert_in_docker s format source dest)

-- ImgInfo, with its sizes as Go's int.
pub record ImgInfo : Type 0 where
  pub virtual_size : ℤ
  pub filename : String
  pub format : String
  pub actual_size : ℤ
  pub dirty_flag : Bool

module _ (decode : String → Result ImgInfo) where
  -- The text of the error names the empty path that was found for qemu-img.
  info_in_docker : {M : Type 0} → Settings → String → Exec M String
  info_in_docker s source = do
    in_abs ←
        handling (system (abs_path source)) (λ p. pure p)
          (λ e. raise ("failed to get absolute path for \"\": " <> e))
    run_combined "docker" (
        "run"
        ∷ "--rm"
        ∷ "-v"
        ∷ (dir in_abs <> ":/in")
        ∷ "--entrypoint"
        ∷ "qemu-img"
        ∷ (s.docker_image_name <> (":" <> s.docker_image_version))
        ∷ "info"
        ∷ join_path ("/in" ∷ base in_abs ∷ [])
        ∷ "--output"
        ∷ "json"
        ∷ [])

  info_output : {M : Type 0} → Settings → String → Exec M String
  info_output s source =
      handling (system (look_path "qemu-img"))
        (λ path.
          if path == ""
          then info_in_docker s source
          else run_combined "qemu-img" ("info" ∷ source ∷ "--output" ∷ "json" ∷ []))
        (λ _. info_in_docker s source)

  -- Info; `decode` stands for encoding/json's Unmarshal.
  unfoldable pub info : {M : Type 0} → Settings → String → Exec M ImgInfo
  unfolding info_in_docker info_output
  info s source = do o ← info_output s source; lift (decode o)
