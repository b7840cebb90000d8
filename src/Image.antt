-- ===== src/Image.antt =====
-- docker_image.go: the image that becomes the root file system. crane.Load, which reads the saved
-- image, and mutate.Extract with the io.Copy of its layers are calls of the host.
pub mod Script
use d2vm.Base.{String, [], ◌∷◌}
use d2vm.Text.Paths.{join_path}
use d2vm.Docker.{image_save}
use d2vm.Host.{
  Exec, mkdir_all, create_file, close_file, load_image, extract_image, remove_all, pure, ◌>>◌,
  deferring, system_, run,
}

-- `tar` is the file that the loaded image reads from.
pub record Image : Type 0 where
  pub tar : String
  pub dir : String

unfoldable pub new_image : {M : Type 0} → String → String → Exec M Image
new_image tag image_tmp_path = do
  system_ (mkdir_all image_tmp_path 0o777)
  let tar = join_path (image_tmp_path ∷ "img.layers.tar" ∷ [])
  image_save tag tar
  system_ (load_image tar)
  pure (record { tar = tar; dir = image_tmp_path })

-- The file is closed before tar reads it; the deferred Close then closes it once more.
unfoldable pub flatten : {M : Type 0} → Image → String → Exec M (Unit {0})
flatten i out = do
  system_ (mkdir_all out 0o777)
  let tar = join_path (i.dir ∷ "img.tar" ∷ [])
  system_ (create_file tar)
  deferring (system_ (close_file tar)) (do
    system_ (extract_image i.tar tar)
    system_ (close_file tar)
    run "tar" ("xvf" ∷ tar ∷ "-C" ∷ out ∷ []))

-- Close
unfoldable pub close : {M : Type 0} → Image → Exec M (Unit {0})
close i = system_ (remove_all i.dir)
