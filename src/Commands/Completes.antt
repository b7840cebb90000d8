-- ===== src/Commands/Completes.antt =====
-- The command build on a host where no call fails.
use d2vm.Base.{ℕ, String, ◌≡◌, Bool, false, Option, none, some, List, Result, ok}
use d2vm.Text.Numbers.{ℤ}
use d2vm.Host.{Host, World, Exec, ◌>>=◌, asks}
use d2vm.Host.Healthy.{Healthy, Succeeds, succeed_rules, Succeeds-bind}
use d2vm.Host.Gives.{Gives, Gives-lift, Gives-asks_then, Succeeds-bind_Gives}
use d2vm.OsRelease.{OsRelease}
use d2vm.Dockerfile.{Dockerfile}
use d2vm.Docker
use d2vm.QemuImg
use d2vm.ConvertOptions.{zero_options, apply}
use d2vm.ContainerDisk.{make_container_disk, maybe_make_container_disk}
use d2vm.Builder.Build.Completes.{wrap-Succeeds}
use d2vm.Convert.Completes.{Suits, cmd-Succeeds, convert-Succeeds}
use d2vm.Flags.{Flags, validate_flags}
use d2vm.Commands.{
  CommandFlags, options_of, needs_docker, parse_size, chown_to, finish, build_here, build_cmd,
}

module _ (h : Host) (healthy : Healthy h) {M : Type 0} where
  parse_size-Gives :
      (s : String) (n : ℕ) → h.parse_size s ≡ ok n → Gives h {M = M} (λ m. m ≡ n) (parse_size s)
  unfolding parse_size
  parse_size-Gives s n e = Gives-asks_then h (λ m. m ≡ n) _ _ (Gives-lift h _ n e)

  docker_build-Succeeds :
      (pull : Bool) (tag file dir platform : String) (args : List String)
      → Succeeds h {M = M} (Docker.build pull tag file dir platform args)
  unfolding Docker.build
  docker_build-Succeeds pull tag file dir platform args = cmd-Succeeds h healthy _

  qemu_img-Succeeds :
      (s : QemuImg.Settings) (format source dest : String)
      → Succeeds h {M = M} (QemuImg.convert s format source dest)
  unfolding QemuImg.convert Docker.run_and_remove Docker.cmd
  qemu_img-Succeeds s format source dest = search succeed_rules depth 9

  make_container_disk-Succeeds :
      (s : QemuImg.Settings) (path tag platform : String)
      → Succeeds h {M = M} (make_container_disk s path tag platform)
  unfolding make_container_disk
  make_container_disk-Succeeds s path tag platform =
      search (succeed_rules, wrap-Succeeds, qemu_img-Succeeds, docker_build-Succeeds) depth 14

  maybe-Succeeds :
      (s : QemuImg.Settings) (tag : String) (push : Bool) (output platform : String)
      → Succeeds h {M = M} (maybe_make_container_disk s tag push output platform)
  unfolding maybe_make_container_disk Docker.push Docker.cmd
  maybe-Succeeds s tag push output platform =
      search (succeed_rules, wrap-Succeeds, make_container_disk-Succeeds) depth 9

  chown_to-Succeeds : (output : String) (uid : Option ℤ) → Succeeds h {M = M} (chown_to output uid)
  unfolding chown_to
  chown_to-Succeeds output none = search succeed_rules
  chown_to-Succeeds output (some uid) = search succeed_rules

  finish-Succeeds : (c : CommandFlags) (f : Flags) → Succeeds h {M = M} (finish c f)
  unfolding finish
  finish-Succeeds c f = search (succeed_rules, chown_to-Succeeds, maybe-Succeeds)

  -- Behind a first action that has succeeded.
  then_ok :
      {A : Type 0} (m : Exec M A) (f : A → Exec M (Unit {0})) (w : World M) (a : A)
      → (m h w).0 ≡ ok a
      → Succeeds h (f a)
      → ((m >>= f) h w).0 ≡ ok tt
  unfolding ◌>>=◌
  then_ok m f w a e p = rw e (p.at (m h w).1).1

  -- On a host where no call fails, on Linux, for root: the command build ends without an error if
  -- validateFlags accepts its flags, the size is read, and the image that it builds from the
  -- Dockerfile suits the options, with SYSLINUX as the boot loader.
  pub build_cmd-ok :
      (render : Dockerfile → Result String) (c : CommandFlags) (context : String)
      (os_args : List String) (w : World M) (f : Flags) (n : ℕ) (r : OsRelease)
      → needs_docker h ≡ false
      → (validate_flags c.flags h w).0 ≡ ok f
      → h.parse_size c.size ≡ ok n
      → Suits render h f.tag (apply (options_of c f n false) zero_options) r
      → (build_cmd render c context os_args h w).0 ≡ ok tt
  unfolding build_cmd build_here asks ◌>>=◌
  build_cmd-ok render c context os_args w f n r here accepted is_size s = rw here (
      then_ok (validate_flags c.flags) _ w f accepted (
        Succeeds-bind_Gives h (λ m. m ≡ n) _ _ (parse_size-Gives c.size n is_size)
          λ size same. rw same (
            Succeeds-bind h _ _ (docker_build-Succeeds _ _ _ _ _ _) λ _.
              Succeeds-bind h _ _ (convert-Succeeds h healthy render f.tag _ r s)
                λ _. finish-Succeeds c f)))
