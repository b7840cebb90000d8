-- ===== src/Image/Script/Laws.antt =====
-- What the script that runs an image's command says.
use mathlib.Core.Path.{subst}
use d2vm.Base.{
  Among, String, ◌<>◌, ◌≡◌, refl, ap, ◌∙◌, inl, inr, Bool, true, false, not, ◌==◌, List, [], ◌∷◌,
  if◌then◌else◌,
}
use text.Mathlib.TextLemmas.{append_assoc, append-nil}
use d2vm.Text.Pieces.{
  concat, flatten, Holds, Holds-section, Holds-left, Holds-right, Holds_refl, Holds_trans,
  text-append,
}
use d2vm.Image.Script.{
  DockerImage, DockerImageConfig, exports, if_any, format, script, as_run_script,
}

-- One line of the script for a variable.
Holds-exports :
    (e : String) (env : List String) → Among e env → Holds ("\nexport " <> e) (concat (exports env))
unfolding exports
Holds-exports e [] h = absurd h
Holds-exports e (x ∷ env) (inl same) =
    subst (λ x. Holds ("\nexport " <> e) ("\nexport " <> (x <> concat (exports env)))) same
      (subst (Holds ("\nexport " <> e)) (append_assoc "\nexport " e (concat (exports env))) (
        Holds-left ("\nexport " <> e) ("\nexport " <> e) (concat (exports env))
          (Holds_refl ("\nexport " <> e))))
Holds-exports e (x ∷ env) (inr h) =
    Holds-right ("\nexport " <> e) "\nexport " (x <> concat (exports env))
      (Holds-right ("\nexport " <> e) x (concat (exports env)) (Holds-exports e env h))

-- The entry point and then the command, each argument between quotes.
abbrev pub arguments : List String → List String → String
arguments [] [] = ""
arguments [] (c ∷ cmd) = format (c ∷ cmd)
arguments (e ∷ entry) [] = format (e ∷ entry) <> " "
arguments (e ∷ entry) (c ∷ cmd) = format (e ∷ entry) <> (" " <> format (c ∷ cmd))

-- By su, unless there is no user.
abbrev pub su_line : Bool → String → String → String
su_line true user line = line
su_line false user line = "su " <> (user <> (" -p -s /bin/sh -c '" <> (line <> "'")))

abbrev pub command_line : DockerImageConfig → String
command_line c = su_line (c.user == "") c.user (arguments c.entrypoint c.cmd)

ending : Bool → String → List String → List String → List (List String)
unfolding if_any
ending no_user user entry cmd =
    ("\n\n" ∷ [])
    ∷ (if not no_user then ("su " ∷ user ∷ " -p -s /bin/sh -c '" ∷ []) else [])
    ∷ if_any entry (format entry ∷ " " ∷ [])
    ∷ if_any cmd (format cmd ∷ [])
    ∷ (if not no_user then ("'" ∷ []) else [])
    ∷ ("\n" ∷ [])
    ∷ []

ending-su_line :
    (no_user : Bool) (user : String) (entry cmd : List String)
    → concat (flatten (ending no_user user entry cmd))
      ≡ "\n\n" <> (su_line no_user user (arguments entry cmd) <> "\n")
unfolding ending
ending-su_line true user [] [] = refl
ending-su_line true user [] (c ∷ cmd) = simp append-nil
ending-su_line true user (e ∷ entry) [] = simp append_assoc
ending-su_line true user (e ∷ entry) (c ∷ cmd) = simp (append_assoc, append-nil)
ending-su_line false user [] [] = simp append_assoc
ending-su_line false user [] (c ∷ cmd) = simp append_assoc
ending-su_line false user (e ∷ entry) [] = simp append_assoc
ending-su_line false user (e ∷ entry) (c ∷ cmd) = simp append_assoc

-- The script says each variable, goes to the directory, if there is one, and ends with the command.
pub record Runs (c : DockerImageConfig) (text : String) : Type 0 where
  pub env : (e : String) → Among e c.env → Holds ("\nexport " <> e) text
  pub working_dir : (c.working_dir == "") ≡ false → Holds ("cd " <> c.working_dir) text
  pub command : (front : String) × (text ≡ front <> ("\n\n" <> (command_line c <> "\n")))

-- The script of an image sets its variables, goes to its directory, and ends with its command.
pub as_run_script-Runs : (i : DockerImage) → Runs i.config (as_run_script i)
unfolding as_run_script script ending
as_run_script-Runs i = record {
  env = λ e h.
      Holds_trans ("\nexport " <> e) (concat (exports i.config.env)) _
        (Holds-exports e i.config.env h)
        (Holds-section (exports i.config.env) (script i.config) (inr (inl refl)));
  working_dir = λ e.
      subst (λ s. Holds s (as_run_script i))
        (ap (λ s. "cd " <> s) (append-nil i.config.working_dir))
        (Holds-section ("cd " ∷ i.config.working_dir ∷ []) (script i.config)
          (inr (inr (inr (inl (rw e refl))))));
  command =
      let front =
        ("\n#!/bin/sh" ∷ [])
        ∷ exports i.config.env
        ∷ ("\n\n" ∷ [])
        ∷ (if not (i.config.working_dir == "") then ("cd " ∷ i.config.working_dir ∷ []) else [])
        ∷ [] in
      let last = ending (i.config.user == "") i.config.user i.config.entrypoint i.config.cmd in
      (
        concat (flatten front),
        text-append front last
            ∙ ap (λ s. concat (flatten front) <> s)
                (ending-su_line (i.config.user == "") i.config.user i.config.entrypoint
                  i.config.cmd),
      );
}
