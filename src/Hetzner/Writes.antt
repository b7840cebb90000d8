-- ===== src/Hetzner/Writes.antt =====
-- What has happened when run_hetzner ends without an error.
use d2vm.Base.{
  Among, ℕ, zero, suc, String, ◌<>◌, ◌≡◌, refl, ◌⊎◌, inl, inr, Bool, true, List, [], ◌∷◌, Result,
}
use d2vm.Text.Paths.{join_path, base}
use d2vm.Host.{Event, Exec}
use d2vm.Host.Logs.{event_of}
use d2vm.Host.Order.{Leaves, Leaves-bind, Leaves-raise}
use d2vm.Host.Stays.{
  IsMonotone, Stays, stay_rules, Stays-asks, Stays-handling, Stays-system_, Leaves-then,
  Leaves-deferring, Leaves-attempt, Leaves-if, Leaves-handling, Leaves-lift_err,
}
use d2vm.QemuImg.{ImgInfo}
use d2vm.Hetzner.{
  HetznerFlags, Cloud, install_utils, write_image, transfer, with_session, remote, ssh_, watch,
  wait_within, rounds_left, connect, grow, rescue, set_up, removing, run_image, run_hetzner,
}
use d2vm.Hetzner.Waits.{transfer-Ensures}

-- The utilities are installed, and that image is written.
abbrev pub Written : String → List Event → Type 0
Written path log =
    Among (event_of install_utils true) log
    × ((goos : String) × Among (event_of (write_image goos path) true) log)

Written-IsMonotone : (path : String) → IsMonotone (Written path)
Written-IsMonotone path e log (i, (goos, j)) = (inr i, (goos, inr j))

module _ (path : String) where
  ssh_-Stays :
      {M : Type 0} (op : String) (args : List String) → Stays (Written path) {M = M} (ssh_ op args)
  unfolding ssh_
  ssh_-Stays op args = search (stay_rules, Written-IsMonotone)

  wait_within-Stays :
      {M : Type 0} (n : ℕ) (server : String) → Stays (Written path) {M = M} (wait_within n server)
  unfolding wait_within
  wait_within-Stays zero server = search stay_rules
  wait_within-Stays (suc n) server =
      Stays-handling (Written path) _ _ _ (ssh_-Stays _ _) (λ _. search (stay_rules, ssh_-Stays))
        λ _. wait_within-Stays n server

  rounds_left-Stays : {M : Type 0} → Stays (Written path) {M = M} rounds_left
  unfolding rounds_left
  rounds_left-Stays = record {
    at = λ h w p. (Stays-asks (Written path) (λ h. h.rounds w.log)).at h w p;
  }

  connect-Stays :
      (f : HetznerFlags) (server ip : String) → Stays (Written path) (connect f server ip)
  unfolding connect watch
  connect-Stays f server ip =
      search (stay_rules, Written-IsMonotone, rounds_left-Stays, wait_within-Stays) depth 12

  grow-Stays : (f : HetznerFlags) (server ip : String) → Stays (Written path) (grow f server ip)
  unfolding grow with_session remote
  grow-Stays f server ip =
      search (stay_rules, Written-IsMonotone, ssh_-Stays, connect-Stays) depth 24

  transfer-Written :
      {M : Type 0} (goos : String) → Leaves {M = M} (Written path) (transfer goos path)
  transfer-Written goos = record {
    at = λ h w a e. (
      (transfer-Ensures goos path).0.at h w a e,
      (goos, (transfer-Ensures goos path).1.at h w a e),
    );
  }

  rescue-Written :
      (f : HetznerFlags) (server ip : String) → Leaves (Written path) (rescue f path server ip)
  unfolding rescue
  rescue-Written f server ip = Leaves-bind _ _ _ λ _. Leaves-bind _ _ _ λ _. Leaves-bind _ _ _ λ _.
      Leaves-deferring (Written path) _ _ (ssh_-Stays _ _) (
        Leaves-bind _ _ _ λ _. Leaves-bind _ _ _ λ _. Leaves-bind _ _ _ λ goos.
          Leaves-then (Written path) _ _ (transfer-Written goos) λ _. grow-Stays f server ip)

  set_up-Written :
      (c : Cloud) (f : HetznerFlags) (server : String)
      → Leaves (Written path) (set_up c f path server)
  unfolding set_up
  set_up-Written c f server = Leaves-bind _ _ _ λ _. Leaves-bind _ _ _ λ _. Leaves-bind _ _ _ λ _.
      Leaves-bind _ _ _ λ _. Leaves-bind _ _ _ λ _. Leaves-bind _ _ _ λ _.
        Leaves-bind _ _ _
          λ _. Leaves-deferring (Written path) _ _ (ssh_-Stays _ _) (rescue-Written f _ _)

  -- The deletion of the server passes on the result, or raises an error of its own.
  removing-Written :
      (f : HetznerFlags) (server : String) (m : Exec Bool (Unit {0}))
      → Leaves (Written path) m
      → Leaves (Written path) (removing f server m)
  unfolding removing
  removing-Written f server m l =
      Leaves-attempt (Written path) m _ l (λ a. search (stay_rules, Written-IsMonotone) depth 12)
        λ x. Leaves-bind _ _ _ λ remove.
          Leaves-if _ _ _ _ (Leaves-lift_err _ x)
            (Leaves-handling _ _ _ _ (λ _. Leaves-lift_err _ x) λ e. Leaves-raise _ _)

  run_image-Written : (c : Cloud) (f : HetznerFlags) → Leaves (Written path) (run_image c f path)
  unfolding run_image
  run_image-Written c f = Leaves-bind _ _ _ λ _.
      Leaves-deferring (Written path) _ _ (Stays-system_ (Written path) (Written-IsMonotone path) _)
        (Leaves-bind _ _ _
          λ server. Leaves-bind _ _ _ λ _. removing-Written f server _ (set_up-Written c f server))

-- The image, or the raw image that it is converted to.
abbrev pub IsRaw : String → String → Type 0
IsRaw img_path p =
    (p ≡ img_path)
    ⊎ ((dir : String) × (p ≡ join_path (dir ∷ "d2vm" ∷ "run" ∷ (base img_path <> ".raw") ∷ [])))

abbrev pub ImageWritten : String → List Event → Type 0
ImageWritten img_path log = (p : String) × IsRaw img_path p × Written p log

ImageWritten-IsMonotone : (img_path : String) → IsMonotone (ImageWritten img_path)
ImageWritten-IsMonotone img_path e log (p, raw, written) =
    (p, raw, Written-IsMonotone p e log written)

run_image-ImageWritten :
    (c : Cloud) (f : HetznerFlags) (img_path p : String)
    → IsRaw img_path p
    → Leaves (ImageWritten img_path) (run_image c f p)
run_image-ImageWritten c f img_path p raw = record {
  at = λ h w a e. (p, raw, (run_image-Written p c f).at h w a e);
}

-- Whatever fails on whatever host: run_hetzner ends without an error only if, on the server, the
-- utilities have been installed and the image has been written, or the raw image that it was
-- converted to.
pub run_hetzner-ImageWritten :
    (decode : String → Result ImgInfo) (c : Cloud) (f : HetznerFlags) (img_path : String)
    → Leaves (ImageWritten img_path) (run_hetzner decode c f img_path)
unfolding run_hetzner
run_hetzner-ImageWritten decode c f img_path = Leaves-bind _ _ _ λ i. Leaves-bind _ _ _ λ temp_dir.
    Leaves-if _ _ _ _ (run_image-ImageWritten c f img_path img_path (inl refl)) (
      Leaves-bind _ _ _ λ _.
        Leaves-deferring (ImageWritten img_path) _ _
          (Stays-system_ (ImageWritten img_path) (ImageWritten-IsMonotone img_path) _)
          (Leaves-bind _ _ _ λ _.
            Leaves-bind _ _ _ λ _. run_image-ImageWritten c f img_path _ (inr (temp_dir, refl))))
