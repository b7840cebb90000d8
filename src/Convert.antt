-- ===== src/Convert.antt =====
-- convert.go: from a Docker image to a virtual machine image.
-- The code's `render` is that of Dockerfile.Templates; any other will do here.
pub mod Cleans
pub mod Completes
use d2vm.Base.{String, ◌<>◌, Bool, not, ◌&&◌, ◌==◌, List, [], ◌∷◌, Result, if◌then◌else◌}
use d2vm.Text.{trim_prefix}
use d2vm.Text.Paths.{join_path, dir, ext}
use d2vm.Host.{
  Exec, mkdir_all, remove_all, create_file, close_file, write_string, pure, raise, lift, asks,
  ◌>>=◌, ◌>>◌, deferring, system_, new_uuid_text, with_object,
}
use d2vm.OsRelease.{OsRelease, supports_luks, fetch_docker_image_os_release}
use d2vm.Dockerfile.{Dockerfile, new_dockerfile}
use d2vm.ConvertOptions.{
  ConvertOptions, ConvertOption, zero_options, apply, has_grub_bios, has_grub_efi,
}
use d2vm.Docker
use d2vm.Docker.{format_img_name}
use d2vm.Files.{move_file}
use d2vm.Image
use d2vm.Builder.Defs.{Builder, no_devices}
use d2vm.Builder.New.{Request, new_builder}
use d2vm.Builder.Build.{build}

-- The format is the extension of the output, raw if there is none.
unfoldable pub format_of : String → String
format_of output =
    let format = trim_prefix (ext output) "." in if format == "" then "raw" else format

-- What Convert asks NewBuilder for.
unfoldable pub request_of : ConvertOptions → OsRelease → String → String → Request
request_of o r tmp_path img_uuid = record {
  workdir = tmp_path;
  img_tag = img_uuid;
  disk = "";
  size = o.size;
  os_release = r;
  format = format_of o.output;
  cmd_line_extra = o.cmd_line_extra;
  split_boot = o.split_boot;
  boot_fs = o.boot_fs;
  boot_size = o.boot_size;
  luks_password = o.luks_password;
  boot_loader = o.boot_loader;
  platform = o.platform;
  hostname = o.hostname;
  dns = o.dns;
  dns_search = o.dns_search;
  extra_hosts = o.hosts;
}

-- Where Convert looks for the image that Build has made.
unfoldable pub built_disk : ConvertOptions → String → String
built_disk o tmp_path = join_path (tmp_path ∷ ("disk0." <> format_of o.output) ∷ [])

make_vm : {M : Type 0} → ConvertOptions → OsRelease → String → String → Exec M (Unit {0})
make_vm o r tmp_path img_uuid = do
  b ← new_builder (request_of o r tmp_path img_uuid)
  deferring (Image.close b.img) (do
    with_object no_devices (build b)
    system_ (remove_all o.output)
    move_file (built_disk o tmp_path) o.output)

-- `defer docker.Remove`, unless the image is to be kept.
unless_kept : {M : Type 0} → ConvertOptions → String → Exec M (Unit {0}) → Exec M (Unit {0})
unless_kept o img_uuid m = if o.keep_cache then m else deferring (Docker.remove img_uuid) m

module _ (render : Dockerfile → Result String) where
  with_kernel :
      {M : Type 0} → ConvertOptions → OsRelease → String → String → String → Exec M (Unit {0})
  with_kernel o r img tmp_path img_uuid = do
    d ← lift (
        new_dockerfile r img o.password o.network_manager (not (o.luks_password == ""))
          (has_grub_bios o) (has_grub_efi o))
    let p = join_path (tmp_path ∷ format_img_name img ∷ [])
    system_ (create_file p)
    deferring (system_ (close_file p)) (do
      text ← lift (render d)
      system_ (write_string p text)
      Docker.build o.pull img_uuid p (dir p) o.platform []
      unless_kept o img_uuid (make_vm o r tmp_path img_uuid))

  as_it_is :
      {M : Type 0} → ConvertOptions → OsRelease → String → String → String → Exec M (Unit {0})
  as_it_is o r img tmp_path img_uuid = do
    Docker.tag img (img_uuid ∷ [])
    unless_kept o img_uuid (make_vm o r tmp_path img_uuid)

  in_tmp_dir : {M : Type 0} → ConvertOptions → String → String → String → Exec M (Unit {0})
  in_tmp_dir o img tmp_path img_uuid = do
    r ← fetch_docker_image_os_release img
    if not (o.luks_password == "") && not (supports_luks r)
        then raise ("luks is not supported for " <> (r.name <> (" " <> r.version)))
        else if not o.raw
        then with_kernel o r img tmp_path img_uuid
        else as_it_is o r img tmp_path img_uuid

  unfoldable pub convert : {M : Type 0} → String → List ConvertOption → Exec M (Unit {0})
  unfolding in_tmp_dir with_kernel as_it_is make_vm unless_kept
  convert img opts = do
    let o = apply opts zero_options
    img_uuid ← new_uuid_text
    temp_dir ← asks (λ h. h.temp_dir)
    let tmp_path = join_path (temp_dir ∷ "d2vm" ∷ img_uuid ∷ [])
    system_ (mkdir_all tmp_path 0o777)
    deferring (system_ (remove_all tmp_path)) (in_tmp_dir o img tmp_path img_uuid)
