-- ===== src/Convert/Completes.antt =====
-- Convert on a host where no call fails.
use d2vm.Base.{
  String, ◌≡◌, ◌⊎◌, inl, inr, Bool, true, false, not, ◌&&◌, ◌==◌, List, [], ◌∷◌, Result, ok,
  if◌then◌else◌, arith,
}
use d2vm.Host.{Event, Host, World, Exec, with_object}
use d2vm.Host.Healthy.{
  Healthy, Succeeds, succeed_rules, Succeeds-pure, Succeeds-asks, Succeeds-bind, Succeeds-deferring,
  Succeeds-system_, Succeeds-if, Succeeds-new_uuid_text,
}
use d2vm.Host.Gives.{
  Gives, Gives-lift, Gives-bind, Gives-asks_then, Succeeds-lift_then, Gives-run_out,
  Succeeds-bind_Gives,
}
use d2vm.OsRelease.{OsRelease, supports_luks, parse_os_release, fetch_docker_image_os_release}
use d2vm.Dockerfile.{Dockerfile, new_dockerfile}
use d2vm.ConvertOptions.{
  ConvertOptions, ConvertOption, zero_options, apply, has_grub_bios, has_grub_efi,
}
use d2vm.Docker
use d2vm.Builder.Defs.{Builder, no_devices}
use d2vm.Builder.New.Completes.{Passes, HasSyslinux, new_builder-Gives}
use d2vm.Builder.Build.{build}
use d2vm.Builder.Build.Completes.{build-ok, move_file-Succeeds}
use d2vm.Convert.{request_of, make_vm, unless_kept, with_kernel, as_it_is, in_tmp_dir, convert}

-- The arguments by which docker prints an image's /etc/os-release.
abbrev pub release_args : String → List String
release_args img = "run" ∷ "--rm" ∷ "-i" ∷ "--entrypoint" ∷ "cat" ∷ img ∷ "/etc/os-release" ∷ []

-- What Convert needs: the image is of that release, the request passes the checks of NewBuilder,
-- and its Dockerfile is made and rendered, unless the image is taken as it is.
pub record Suits (render : Dockerfile → Result String) (h : Host) (img : String)
    (o : ConvertOptions) (r : OsRelease) : Type 0 where
  pub release :
      (log : List Event)
      → parse_os_release h.dotenv (h.process log "docker" (release_args img)).stdout ≡ ok r
  pub request : (tmp_path img_uuid : String) → Passes (request_of o r tmp_path img_uuid)
  pub dockerfile :
      (o.raw ≡ true)
      ⊎ ((d : Dockerfile) × (new_dockerfile r img o.password o.network_manager
              (not (o.luks_password == ""))
              (has_grub_bios o)
              (has_grub_efi o)
            ≡ ok d)
          × (text : String) × (render d ≡ ok text))

not_both : (a b : Bool) → (a ≡ true) ⊎ (b ≡ true) → (not a && not b) ≡ false
not_both a b e = ground arith

luks_guard :
    (o : ConvertOptions) (r : OsRelease) (tmp_path img_uuid : String)
    → Passes (request_of o r tmp_path img_uuid)
    → (not (o.luks_password == "") && not (supports_luks r)) ≡ false
unfolding request_of
luks_guard o r tmp_path img_uuid p = elim p.luks [
  | inl none ↦ not_both _ _ (inl none)
  | inr (split, supports) ↦ not_both _ _ (inr supports)
]

Succeeds-else :
    (h : Host) {M A : Type 0} (b : Bool) (m n : Exec M A)
    → b ≡ true
    → Succeeds h n
    → Succeeds h (if not b then m else n)
Succeeds-else h true m n e p = p
Succeeds-else h false m n e p = absurd (cc)

module _ (h : Host) (healthy : Healthy h) {M : Type 0} where
  fetch-Gives :
      (img : String) (r : OsRelease)
      → ((log : List Event)
          → parse_os_release h.dotenv (h.process log "docker" (release_args img)).stdout ≡ ok r)
      → Gives h {M = M} (λ a. a ≡ r) (fetch_docker_image_os_release img)
  unfolding fetch_docker_image_os_release Docker.cmd_out
  fetch-Gives img r read =
      Gives-bind h (λ a. a ≡ r) _ _ _ (Gives-run_out h healthy "docker" (release_args img))
        λ printed (log, e). Gives-asks_then h (λ a. a ≡ r) _ _ (Gives-lift h _ r (rw e (read log)))

  pub cmd-Succeeds : (args : List String) → Succeeds h {M = M} (Docker.cmd args)
  unfolding Docker.cmd
  cmd-Succeeds args = search succeed_rules

  build-Succeeds :
      (b : Builder) → HasSyslinux b → Succeeds h {M = M} (with_object no_devices (build b))
  unfolding with_object
  build-Succeeds b (s, e) = record { at = λ w. (tt, build-ok h healthy b s _ e) }

  make_vm-Succeeds :
      (o : ConvertOptions) (r : OsRelease) (tmp_path img_uuid : String)
      → Passes (request_of o r tmp_path img_uuid)
      → Succeeds h {M = M} (make_vm o r tmp_path img_uuid)
  unfolding make_vm
  make_vm-Succeeds o r tmp_path img_uuid p =
      Succeeds-bind_Gives h HasSyslinux _ _
        (new_builder-Gives h healthy (request_of o r tmp_path img_uuid) p)
        λ b has. Succeeds-deferring h _ _ (
          Succeeds-bind h _ _ (build-Succeeds b has) λ _.
            Succeeds-bind h _ _ (Succeeds-system_ h healthy _)
              λ _. move_file-Succeeds h healthy _ _)

  unless_kept-Succeeds :
      (o : ConvertOptions) (img_uuid : String) (m : Exec M (Unit {0}))
      → Succeeds h m
      → Succeeds h (unless_kept o img_uuid m)
  unfolding unless_kept
  unless_kept-Succeeds o img_uuid m p =
      Succeeds-if h o.keep_cache _ _ p (Succeeds-deferring h _ _ p)

  as_it_is-Succeeds :
      (render : Dockerfile → Result String) (o : ConvertOptions) (r : OsRelease)
      (img tmp_path img_uuid : String)
      → Passes (request_of o r tmp_path img_uuid)
      → Succeeds h {M = M} (as_it_is render o r img tmp_path img_uuid)
  unfolding as_it_is Docker.tag
  as_it_is-Succeeds render o r img tmp_path img_uuid p =
      Succeeds-bind h _ _ (Succeeds-bind h _ _ (cmd-Succeeds _) λ _. Succeeds-pure h tt)
        λ _. unless_kept-Succeeds o img_uuid _ (make_vm-Succeeds o r tmp_path img_uuid p)

  with_kernel-Succeeds :
      (render : Dockerfile → Result String) (o : ConvertOptions) (r : OsRelease)
      (img tmp_path img_uuid : String) (d : Dockerfile) (text : String)
      → new_dockerfile r img o.password o.network_manager
          (not (o.luks_password == ""))
          (has_grub_bios o)
          (has_grub_efi o)
        ≡ ok d
      → render d ≡ ok text
      → Passes (request_of o r tmp_path img_uuid)
      → Succeeds h {M = M} (with_kernel render o r img tmp_path img_uuid)
  unfolding with_kernel Docker.build
  with_kernel-Succeeds render o r img tmp_path img_uuid d text is_made is_rendered p =
      Succeeds-lift_then h _ _ _ is_made (
        Succeeds-bind h _ _ (Succeeds-system_ h healthy _) λ _. Succeeds-deferring h _ _ (
          Succeeds-lift_then h _ _ _ is_rendered (
            Succeeds-bind h _ _ (Succeeds-system_ h healthy _) λ _.
              Succeeds-bind h _ _ (cmd-Succeeds _)
                λ _. unless_kept-Succeeds o img_uuid _ (make_vm-Succeeds o r tmp_path img_uuid p))))

  in_tmp_dir-Succeeds :
      (render : Dockerfile → Result String) (o : ConvertOptions) (r : OsRelease)
      (img tmp_path img_uuid : String)
      → Suits render h img o r
      → Succeeds h {M = M} (in_tmp_dir render o img tmp_path img_uuid)
  unfolding in_tmp_dir
  in_tmp_dir-Succeeds render o r img tmp_path img_uuid s =
      Succeeds-bind_Gives h (λ a. a ≡ r) _ _ (fetch-Gives img r s.release)
        λ a same. rw same (
          rw (luks_guard o r tmp_path img_uuid (s.request tmp_path img_uuid)) (elim s.dockerfile [
            | inl raw ↦
                Succeeds-else h o.raw _ _ raw
                  (as_it_is-Succeeds render o r img tmp_path img_uuid (s.request tmp_path img_uuid))
            | inr (d, is_made, text, is_rendered) ↦
                Succeeds-if h (not o.raw) _ _
                  (with_kernel-Succeeds render o r img tmp_path img_uuid d text is_made is_rendered
                    (s.request tmp_path img_uuid))
                  (as_it_is-Succeeds render o r img tmp_path img_uuid (s.request tmp_path img_uuid))
          ]))

  pub convert-Succeeds :
      (render : Dockerfile → Result String) (img : String) (opts : List ConvertOption)
      (r : OsRelease)
      → Suits render h img (apply opts zero_options) r
      → Succeeds h {M = M} (convert render img opts)
  unfolding convert
  convert-Succeeds render img opts r s = Succeeds-bind h _ _ (Succeeds-new_uuid_text h) λ img_uuid.
      Succeeds-bind h _ _ (Succeeds-asks h _) λ temp_dir.
        Succeeds-bind h _ _ (Succeeds-system_ h healthy _)
          λ _. Succeeds-deferring h _ _ (in_tmp_dir-Succeeds render _ r img _ img_uuid s)

  -- On a host where no call fails, Convert ends without an error for an image and options that suit
  -- it, with SYSLINUX as the boot loader.
  pub convert-ok :
      (render : Dockerfile → Result String) (img : String) (opts : List ConvertOption)
      (r : OsRelease) (w : World M)
      → Suits render h img (apply opts zero_options) r
      → (convert render img opts h w).0 ≡ ok tt
  convert-ok render img opts r w s = ((convert-Succeeds render img opts r s).at w).1
