-- ===== src/Hetzner/Quiet.antt =====
-- What run_hetzner does without creating or deleting a server.
use d2vm.Base.{err, ok, refl, ℕ, zero, suc, String, Bool, false, ◌&&◌, ◌==◌, List, [], ◌∷◌, Result}
use d2vm.Host.{Call, cloud, ssh, Exec}
use d2vm.Host.Mounts.{first_argument}
use d2vm.Host.Rules.{
  Resource, Balanced, Balanced-asks, Balanced-pure, Balanced-handling, balance_rules,
}
use d2vm.Host.Routines.Laws.{IsQuiet, both-Balanced}
use d2vm.QemuImg
use d2vm.QemuImg.{Settings, ImgInfo, info}
use d2vm.Docker
use d2vm.Hetzner.{
  HetznerFlags, Cloud, ssh_, remote, with_session, dial_within, wait_within, watch, install_utils,
  write_image, run_in, in_session, transfer, rounds_left, connect, grow, rescue, set_up,
}

abbrev requests : String → Call → Bool
requests op (cloud o args) = o == op
requests op _ = false

abbrev deletes : String → Call → Bool
deletes id (cloud o args) = o == "delete_server" && first_argument args == id
deletes id _ = false

-- The server of a handle: created, when that is the answer of the cloud, and asked to be deleted.
abbrev pub server : String → Resource
server id = record {
  takes = requests "create_server";
  named = λ handle. handle == id;
  gives = deletes id;
}

module _ (id : String) where
  run_in-IsQuiet :
      (op : String) (args : List String) (opened : Result String)
      → IsQuiet (server id) (run_in (ssh op args) opened)
  unfolding run_in
  run_in-IsQuiet op args (err e) = tt
  run_in-IsQuiet op args (ok s) = ((refl, refl), λ answer. ((refl, refl), λ closed. tt))

  in_session-IsQuiet :
      (op : String) (args : List String) → IsQuiet (server id) (in_session (ssh op args))
  unfolding in_session
  in_session-IsQuiet op args = ((refl, refl), λ opened. run_in-IsQuiet op args opened)

  module _ {M : Type 0} where
    ssh_-Balanced : (op : String) (args : List String) → Balanced (server id) {M = M} (ssh_ op args)
    unfolding ssh_
    ssh_-Balanced op args = search balance_rules

    remote-Balanced : (cmd : String) → Balanced (server id) {M = M} (remote cmd)
    unfolding remote
    remote-Balanced cmd = search balance_rules

    with_session-Balanced :
        {A : Type 0} (m : Exec M A) → Balanced (server id) m → Balanced (server id) (with_session m)
    unfolding with_session
    with_session-Balanced m b = search (balance_rules, ssh_-Balanced)

    watch-Balanced : (action : String) → Balanced (server id) {M = M} (watch action)
    unfolding watch
    watch-Balanced action = search balance_rules

    ruleset session_rules =
        (balance_rules, ssh_-Balanced, remote-Balanced, with_session-Balanced, watch-Balanced)

    dial_within-Balanced :
        (n : ℕ) (host user password : String)
        → Balanced (server id) {M = M} (dial_within n host user password)
    unfolding dial_within
    dial_within-Balanced zero host user password = search balance_rules
    dial_within-Balanced (suc n) host user password =
        Balanced-handling _ _ _ (ssh_-Balanced "dial" (host ∷ user ∷ password ∷ []))
          (λ _. Balanced-pure _) λ _. dial_within-Balanced n host user password

    wait_within-Balanced :
        (n : ℕ) (host : String) → Balanced (server id) {M = M} (wait_within n host)
    unfolding wait_within
    wait_within-Balanced zero host = search balance_rules
    wait_within-Balanced (suc n) host =
        Balanced-handling _ _ _ (ssh_-Balanced "probe" (host ∷ []))
          (λ _. search (balance_rules, ssh_-Balanced)) λ _. wait_within-Balanced n host

    transfer-Balanced :
        (goos img_path : String) → Balanced (server id) {M = M} (transfer goos img_path)
    unfolding transfer install_utils write_image
    transfer-Balanced goos img_path =
        both-Balanced (server id) _ _ (in_session-IsQuiet "run" _)
          (in_session-IsQuiet "run_with_input" _)

    rounds_left-Balanced : Balanced (server id) {M = M} rounds_left
    unfolding rounds_left
    rounds_left-Balanced = record {
      at = λ h w. (Balanced-asks {R = (server id)} (λ h. h.rounds w.log)).at h w;
    }

  connect-Balanced :
      (f : HetznerFlags) (host ip : String) → Balanced (server id) (connect f host ip)
  unfolding connect
  connect-Balanced f host ip =
      search (session_rules, rounds_left-Balanced, wait_within-Balanced) depth 12

  grow-Balanced : (f : HetznerFlags) (host ip : String) → Balanced (server id) (grow f host ip)
  unfolding grow
  grow-Balanced f host ip = search (session_rules, connect-Balanced) depth 20

  rescue-Balanced :
      (f : HetznerFlags) (img_path host ip : String)
      → Balanced (server id) (rescue f img_path host ip)
  unfolding rescue
  rescue-Balanced f img_path host ip =
      search (session_rules, transfer-Balanced, grow-Balanced) depth 20

  pub set_up-Balanced :
      (c : Cloud) (f : HetznerFlags) (img_path host : String)
      → Balanced (server id) (set_up c f img_path host)
  unfolding set_up
  set_up-Balanced c f img_path host =
      search (session_rules, rounds_left-Balanced, dial_within-Balanced, rescue-Balanced) depth 20

  module _ (decode : String → Result ImgInfo) {M : Type 0} where
    pub info-Balanced :
        (s : Settings) (path : String) → Balanced (server id) {M = M} (info decode s path)
    unfolding info
    info-Balanced s path = search balance_rules depth 12

  pub qemu_img-Balanced :
      {M : Type 0} (s : Settings) (format source dest : String)
      → Balanced (server id) {M = M} (QemuImg.convert s format source dest)
  unfolding QemuImg.convert Docker.run_and_remove Docker.cmd
  qemu_img-Balanced s format source dest = search balance_rules depth 9
