-- ===== src/OsRelease.antt =====
-- os_release.go: the distribution of an image, from its /etc/os-release.
-- The parser of that file's format, godotenv.Parse, is a parameter: it gives the variables that
-- the file sets, or an error.
pub mod Laws
use d2vm.Base.{
  ℕ, ◌≤◌, String, ◌<>◌, Bool, true, false, not, ◌||◌, ◌==◌, Option, none, some, List, [], ◌∷◌,
  Result, ok, err, text_lt, leb, if◌then◌else◌,
}
use d2vm.Text.{to_lower}
use d2vm.Text.Numbers.{ℤ, pos, negsuc, atoi}
use d2vm.Release
use d2vm.Release.{Release}
use d2vm.Host.{Exec, lift, asks, ◌>>=◌}
use d2vm.Docker.{cmd_out}

unfoldable pub supported : Release → Bool
supported r =
    if r == Release.ubuntu
    then true
    else if r == Release.debian
    then true
    else if r == Release.kali
    then true
    else if r == Release.alpine
    then true
    else if r == Release.centos
    then true
    else if r == Release.rocky
    then true
    else if r == Release.almalinux
    then true
    else if r == Release.rhel
    then false
    else false

pub record OsRelease : Type 0 where
  pub id : Release
  pub name : String
  pub version_id : String
  pub version : String
  pub version_code_name : String

-- `v >= 10` for the result of strconv.Atoi, false where that fails.
at_least_ten : Option ℤ → Bool
at_least_ten none = false
at_least_ten (some (pos n)) = leb 10 n
at_least_ten (some (negsuc n)) = false

unfoldable pub supports_luks : OsRelease → Bool
unfolding at_least_ten
supports_luks r =
    if r.id == Release.ubuntu
    then not (text_lt r.version_id "20.04")
    else if r.id == Release.debian
    then at_least_ten (atoi r.version_id)
    else if r.id == Release.kali
    then true
    else if r.id == Release.centos
    then true
    else if r.id == Release.rocky
    then true
    else if r.id == Release.almalinux
    then true
    else if r.id == Release.alpine
    then true
    else if r.id == Release.rhel
    then false
    else false

-- A Go map of texts as its pairs; a missing key reads as the empty text.
unfoldable pub get_env : String → List (String × String) → String
get_env key [] = ""
get_env key ((k, v) ∷ env) = if k == key then v else get_env key env

module _ (dotenv : String → Result (List (String × String))) where
  release_of : Result (List (String × String)) → Result OsRelease
  release_of (err e) = err e
  release_of (ok env) = ok (record {
    id = to_lower (get_env "ID" env);
    name = get_env "NAME" env;
    version = get_env "VERSION" env;
    version_id = get_env "VERSION_ID" env;
    version_code_name = get_env "VERSION_CODENAME" env;
  })

  unfoldable pub parse_os_release : String → Result OsRelease
  unfolding release_of
  parse_os_release s = release_of (dotenv s)

-- FetchDockerImageOSRelease; docker.CmdOut runs the command docker.
unfoldable pub fetch_docker_image_os_release : {M : Type 0} → String → Exec M OsRelease
fetch_docker_image_os_release img = do
  (o, _) ← cmd_out ("run" ∷ "--rm" ∷ "-i" ∷ "--entrypoint" ∷ "cat" ∷ img ∷ "/etc/os-release" ∷ [])
  dotenv ← asks (λ h. h.dotenv)
  lift (parse_os_release dotenv o)
