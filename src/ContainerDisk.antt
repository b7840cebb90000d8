-- ===== src/ContainerDisk.antt =====
-- container_disk.go, and maybeMakeContainerDisk of cmd/d2vm/container_disk.go.
use d2vm.Base.{String, ◌<>◌, Bool, false, not, ◌==◌, [], ◌∷◌, if◌then◌else◌}
use d2vm.Text.Numbers.{decimal}
use d2vm.Text.Paths.{join_path, base}
use d2vm.Host.{
  Exec, mkdir_all, remove_all, write_file, stat, pure, asks, ◌>>=◌, ◌>>◌, deferring, system_,
  new_uuid_text,
}
use d2vm.Files.{wrap}
use d2vm.Docker
use d2vm.QemuImg
use d2vm.QemuImg.{Settings}

container_disk_dockerfile : String → String
container_disk_dockerfile disk =
    "FROM scratch\n\nADD --chown="
    <> (decimal 107 <> (":" <> (decimal 107 <> (" " <> (disk <> " /disk/\n")))))

fill : {M : Type 0} → Settings → String → String → String → String → Exec M (Unit {0})
fill s tmp_path path tag platform = do
  system_ (stat path)
  let qcow2 = join_path (tmp_path ∷ "disk.qcow2" ∷ [])
  QemuImg.convert s "qcow2" path qcow2
  let dockerfile = join_path (tmp_path ∷ "Dockerfile" ∷ [])
  wrap "failed to write dockerfile: "
      (system_ (write_file dockerfile (container_disk_dockerfile (base qcow2)) 0o777))
  wrap "failed to build container disk: " (Docker.build false tag dockerfile tmp_path platform [])

unfoldable pub make_container_disk :
    {M : Type 0} → Settings → String → String → String → Exec M (Unit {0})
unfolding fill container_disk_dockerfile
make_container_disk s path tag platform = do
  uuid ← new_uuid_text
  temp_dir ← asks (λ h. h.temp_dir)
  let tmp_path = join_path (temp_dir ∷ "d2vm" ∷ uuid ∷ [])
  system_ (mkdir_all tmp_path 0o777)
  deferring (system_ (remove_all tmp_path)) (fill s tmp_path path tag platform)

-- The flags --tag, --push, --output and --platform are the parameters.
unfoldable pub maybe_make_container_disk :
    {M : Type 0} → Settings → String → Bool → String → String → Exec M (Unit {0})
maybe_make_container_disk s container_disk_tag push output platform =
    if container_disk_tag == "" then pure tt else do
      make_container_disk s output container_disk_tag platform
      if not push
          then pure tt
          else wrap "failed to push container disk: " (Docker.push container_disk_tag)
