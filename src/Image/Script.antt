-- ===== src/Image/Script.antt =====
-- docker_image.go: the configuration of an image, and the script that runs its command.
pub mod Laws
use d2vm.Base.{ℕ, String, ◌<>◌, not, ◌==◌, List, [], ◌∷◌, map, if◌then◌else◌}
use d2vm.Text.{join}
use d2vm.Text.Numbers.{ℤ}
use d2vm.Text.Pieces.{concat, flatten}

pub record DockerImageConfig : Type 0 where
  pub image : String
  pub hostname : String
  pub domainname : String
  pub user : String
  pub env : List String
  pub cmd : List String
  pub working_dir : String
  pub entrypoint : List String

pub record DockerImage : Type 0 where
  pub config : DockerImageConfig
  pub architecture : String
  pub os : String
  pub size : ℤ

abbrev pub quoted : String → String
quoted v = "\"" <> (v <> "\"")

-- The function `format` of the template.
abbrev pub format : List String → String
format a = join (map quoted a) " "

-- `{{ range .DockerImageConfig.Env }}`
exports : List String → List String
exports [] = []
exports (e ∷ env) = "\nexport " ∷ e ∷ exports env

-- `{{ if list }}` is about a list that is not empty.
if_any : List String → List String → List String
if_any [] pieces = []
if_any (x ∷ xs) pieces = pieces

-- dockerImageRun: text between two actions, or one action. The marker {{- has taken the white space
-- in front of it.
script : DockerImageConfig → List (List String)
unfolding exports if_any
script c =
    ("\n#!/bin/sh" ∷ [])
    ∷ exports c.env
    ∷ ("\n\n" ∷ [])
    ∷ (if not (c.working_dir == "") then ("cd " ∷ c.working_dir ∷ []) else [])
    ∷ ("\n\n" ∷ [])
    ∷ (if not (c.user == "") then ("su " ∷ c.user ∷ " -p -s /bin/sh -c '" ∷ []) else [])
    ∷ if_any c.entrypoint (format c.entrypoint ∷ " " ∷ [])
    ∷ if_any c.cmd (format c.cmd ∷ [])
    ∷ (if not (c.user == "") then ("'" ∷ []) else [])
    ∷ ("\n" ∷ [])
    ∷ []

-- AsRunScript, and what it writes.
unfoldable pub as_run_script : DockerImage → String
unfolding script
as_run_script i = concat (flatten (script i.config))
