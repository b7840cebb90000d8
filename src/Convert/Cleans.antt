-- ===== src/Convert/Cleans.antt =====
-- What Convert leaves behind on its host.
use text.Mathlib.TextLemmas.{append_assoc}
use d2vm.Base.{
  ◌+◌, ◌≤◌, String, ◌≡◌, sym, ap, ◌⊎◌, inl, inr, Bool, true, false, ◌∙◌, some, List, [], ◌∷◌,
  Result, Result-cases, arith,
}
use d2vm.Text.Paths.{join_path}
use d2vm.Host.{
  Host, World, Exec, add_event, new_uuid, ◌>>=◌, deferring, system_, new_uuid_text, mkdir_all,
  remove_all, is_ok,
}
use d2vm.Host.Rules.{taken, given, Balanced, balance_rules}
use d2vm.Host.Logs.{event_of, log-system_}
use d2vm.Host.Order.{last_call}
use d2vm.Host.Within.{Within, Within-then, Within-late, within_rules}
use d2vm.Host.Mounts.{Held, held}
use d2vm.OsRelease.{OsRelease, fetch_docker_image_os_release}
use d2vm.Config.{Config}
use d2vm.BootFs.{BootFs}
use d2vm.Bootloader.{Bootloader}
use d2vm.Image.{Image}
use d2vm.Dockerfile.{Dockerfile}
use d2vm.ConvertOptions.{ConvertOptions, ConvertOption}
use d2vm.Builder.New.{builder_of}
use d2vm.Builder.New.Mounts.{new_builder-Balanced}
use d2vm.Files.Laws.{move_file-Balanced}
use d2vm.Builder.Build.Cleans.{build-Within}
use d2vm.Image
use d2vm.Docker
use d2vm.Convert.{
  format_of, request_of, built_disk, make_vm, unless_kept, with_kernel, as_it_is, in_tmp_dir,
  convert,
}

-- Convert looks for the finished image exactly where the builder that it asks for puts it,
-- whatever the options and the output's extension are.
pub disk_out-built_disk :
    (o : ConvertOptions) (r : OsRelease) (tmp_path img_uuid arch f : String) (c : Config)
    (fs : BootFs) (bl : Bootloader) (img : Image)
    → (builder_of (request_of o r tmp_path img_uuid) arch f c fs bl img).disk_out
      ≡ built_disk o tmp_path
unfolding builder_of request_of built_disk
disk_out-built_disk o r tmp_path img_uuid arch f c fs bl img =
    ap (λ name. join_path (tmp_path ∷ name ∷ []))
      (sym (append_assoc "disk0" "." (format_of o.output)))

module _ (k : Held) {M : Type 0} where
  fetch-Balanced : (img : String) → Balanced (held k) {M = M} (fetch_docker_image_os_release img)
  unfolding fetch_docker_image_os_release Docker.cmd_out
  fetch-Balanced img = search balance_rules

  pub docker_build-Balanced :
      (pull : Bool) (t file dir platform : String) (args : List String)
      → Balanced (held k) {M = M} (Docker.build pull t file dir platform args)
  unfolding Docker.build Docker.cmd
  docker_build-Balanced pull t file dir platform args = search balance_rules

  docker_tag-Balanced : (img t : String) → Balanced (held k) {M = M} (Docker.tag img (t ∷ []))
  unfolding Docker.tag Docker.cmd
  docker_tag-Balanced img t = search balance_rules

  docker_remove-Balanced : (t : String) → Balanced (held k) {M = M} (Docker.remove t)
  unfolding Docker.remove Docker.cmd
  docker_remove-Balanced t = search balance_rules

  close-Balanced : (i : Image) → Balanced (held k) {M = M} (Image.close i)
  unfolding Image.close
  close-Balanced i = search balance_rules

  ruleset convert_rules = (
    balance_rules, within_rules, fetch-Balanced, docker_build-Balanced, docker_tag-Balanced,
    docker_remove-Balanced, close-Balanced, new_builder-Balanced, move_file-Balanced, build-Within,
  )

  make_vm-Within :
      (o : ConvertOptions) (r : OsRelease) (tmp_path img_uuid : String)
      → Within (held k) {M = M} 0 0 0 (make_vm o r tmp_path img_uuid)
  unfolding make_vm
  make_vm-Within o r tmp_path img_uuid = search convert_rules depth 9

  unless_kept-Within :
      (o : ConvertOptions) (img_uuid : String) (m : Exec M (Unit {0}))
      → Within (held k) 0 0 0 m
      → Within (held k) 0 0 0 (unless_kept o img_uuid m)
  unfolding unless_kept
  unless_kept-Within o img_uuid m p = search convert_rules

module _ (k : Held) {M : Type 0} (render : Dockerfile → Result String) where
  as_it_is-Within :
      (o : ConvertOptions) (r : OsRelease) (img tmp_path img_uuid : String)
      → Within (held k) {M = M} 0 0 0 (as_it_is render o r img tmp_path img_uuid)
  unfolding as_it_is
  as_it_is-Within o r img tmp_path img_uuid =
      search (within_rules, docker_tag-Balanced, make_vm-Within, unless_kept-Within)

  with_kernel-Within :
      (o : ConvertOptions) (r : OsRelease) (img tmp_path img_uuid : String)
      → Within (held k) {M = M} 0 0 0 (with_kernel render o r img tmp_path img_uuid)
  unfolding with_kernel
  with_kernel-Within o r img tmp_path img_uuid = Within-then _ _ (search convert_rules) λ d.
      Within-then _ _ (search convert_rules) λ _. Within-late _ _ (search convert_rules) (
        Within-then _ _ (search convert_rules) λ text. Within-then _ _ (search convert_rules) λ _.
          Within-then _ _ (search convert_rules) λ _. search (make_vm-Within, unless_kept-Within))

  in_tmp_dir-Within :
      (o : ConvertOptions) (img tmp_path img_uuid : String)
      → Within (held k) {M = M} 0 0 0 (in_tmp_dir render o img tmp_path img_uuid)
  unfolding in_tmp_dir
  in_tmp_dir-Within o img tmp_path img_uuid =
      Within-then _ _ (search convert_rules)
        λ r. search (within_rules, balance_rules, with_kernel-Within, as_it_is-Within)

  pub convert-Within :
      (img : String) (opts : List ConvertOption)
      → Within (held k) {M = M} 0 0 0 (convert render img opts)
  unfolding convert
  convert-Within img opts = Within-then _ _ (search convert_rules) λ img_uuid.
      Within-then _ _ (search convert_rules) λ temp_dir.
        Within-then _ _ (search convert_rules)
          λ _. Within-late _ _ (search convert_rules) (search in_tmp_dir-Within)

  -- Whatever fails on whatever host, Convert tries to give back each directory that it mounted on,
  -- each loop device, each device whose partitions it mapped and each opened encrypted partition, by
  -- its own name, at least as often as it took it.
  pub convert-releases :
      (img : String) (opts : List ConvertOption) (h : Host) (w : World M)
      → taken (held k) (convert render img opts h w).1.log + given (held k) w.log
        ≤ given (held k) (convert render img opts h w).1.log + taken (held k) w.log
  convert-releases img opts h w = ground (arith, (convert-Within img opts).at h w)

-- The directory of one conversion.
abbrev pub tmp_dir : {M : Type 0} → Host → World M → String
tmp_dir h w = join_path (h.temp_dir ∷ "d2vm" ∷ h.uuid w.log ∷ [])

module _ {M : Type 0} (render : Dockerfile → Result String) where
  -- The last thing that Convert does, whatever happened before, is to remove its directory, unless
  -- it could not make it: then it has done nothing but to try that, with a new UUID.
  pub last_call-convert :
      (img : String) (opts : List ConvertOption) (h : Host) (w : World M)
      → (last_call (convert render img opts h w).1.log ≡ some (remove_all (tmp_dir h w)))
        ⊎ ((convert render img opts h w).1.log
            ≡ event_of (mkdir_all (tmp_dir h w) 0o777) false ∷ event_of new_uuid true ∷ w.log)
  unfolding convert deferring new_uuid_text ◌>>=◌
  last_call-convert img opts h w =
      let made = system_ (mkdir_all (tmp_dir h w) 0o777) h (add_event new_uuid true w) in
      let logged = log-system_ (mkdir_all (tmp_dir h w) 0o777) h (add_event new_uuid true w) in
      elim (Result-cases made.0) [
        | inl (a, e) ↦ inl (rw e (rw log-system_))
        | inr (x, e) ↦ inr (
            rw e (
              logged
              ∙ ap
                  (λ done.
                    event_of (mkdir_all (tmp_dir h w) 0o777) done ∷ event_of new_uuid true ∷ w.log)
                  (ap is_ok e)))
      ]
