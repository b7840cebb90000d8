-- ===== src/Hetzner/Cleans.antt =====
-- What run_hetzner leaves behind: the server that it created in the cloud.
use d2vm.Base.{
  ℕ, ◌+◌, ◌≤◌, String, ◌≡◌, Bool, true, ◌==◌, List, Result, ok, err, if◌then◌else◌, arith,
}
use d2vm.Host.{
  cloud, add_answer, Event, Host, World, Exec, continue, ◌>>=◌, ◌>>◌, system, raise, lift, gets,
  modify, handling, attempt,
}
use d2vm.Host.Rules.{Balanced, Moves, taken, given, balance_rules}
use d2vm.Host.Debts.{due, Owes, nothing, Owes-Balanced, Owes-bind}
use d2vm.Host.Covers.{Covers, Gives, Covers-bind, Covers-Balanced, Covers-deferring, cover_rules}
use d2vm.QemuImg.{ImgInfo}
use d2vm.Hetzner.{
  HetznerFlags, Cloud, set_up, removing, create_server, first_image, run_image, run_hetzner,
}
use d2vm.Hetzner.Quiet.{server, set_up-Balanced, info-Balanced, qemu_img-Balanced}

module _ (id : String) where
  -- What an answer of the cloud takes, as `id` counts.
  abbrev created : String → ℕ
  created handle = if handle == id then 1 else 0

  creation-Owes :
      {M : Type 0} (args : List String)
      → Owes (server id) {M = M} 0 created (system (cloud "create_server" args))
  unfolding system
  creation-Owes args = record { at = λ h w. settle (h.system w.log (cloud "create_server" args)) w }
    where
      settle :
          {M : Type 0} (r : Result String) (w : World M)
          → Moves
              (server id)
              (due created r)
              0
              w.log
              (add_answer (cloud "create_server" args) r w).log
      settle (ok handle) w = ground arith
      settle (err e) w = ground arith

  -- First something that is balanced.
  Owes-after :
      {A : Type 0} (m : Exec Bool A) (g : A → Exec Bool String)
      → Balanced (server id) m
      → ((a : A) → Owes (server id) 0 created (g a))
      → Owes (server id) 0 created (m >>= g)
  Owes-after m g b k = Owes-bind nothing created 0 m g (Owes-Balanced m b) k

  create_server-Owes :
      (c : Cloud) (f : HetznerFlags) → Owes (server id) 0 created (create_server c f)
  unfolding create_server first_image
  create_server-Owes c f = search (Owes-after, balance_rules, creation-Owes) depth 14

  -- Balanced, and then `removing` with the flag set: that server is asked to be deleted.
  removing-Gives :
      (f : HetznerFlags) (handle : String) (m : Exec Bool (Unit {0}))
      → f.remove ≡ true
      → Balanced (server id) m
      → Gives (server id) (created handle) (removing f handle m)
  unfolding removing attempt gets handling lift raise system ◌>>=◌
  removing-Gives f handle m asked b = record { at = λ h w. ground (arith, b.at h w) }

module _ (id : String) (c : Cloud) (f : HetznerFlags) (asked : f.remove ≡ true) where
  after_creation : String → String → Exec Bool (Unit {0})
  after_creation img_path handle =
      modify (λ _. true) >> removing f handle (set_up c f img_path handle)

  created-Covers :
      (r : Result String) (img_path : String) (h : Host) (w : World Bool) (l : List Event)
      → Moves (server id) (due (created id) r) 0 l w.log
      → taken (server id) (continue r (after_creation img_path) h w).1.log + given (server id) l
        ≤ given (server id) (continue r (after_creation img_path) h w).1.log + taken (server id) l
  unfolding after_creation modify ◌>>=◌
  created-Covers (ok handle) img_path h w l s = omega (
    arith,
    s,
    (removing-Gives id f handle (set_up c f img_path handle) asked
          (set_up-Balanced id c f img_path handle)).at
        h (record w { mem = true }),
  )
  created-Covers (err x) img_path h w l s = omega (arith, s)

  creating-Covers :
      (img_path : String)
      → Covers (server id) (
          create_server c f >>= λ handle.
          modify (λ _. true) >> removing f handle (set_up c f img_path handle))
  unfolding after_creation ◌>>=◌
  creating-Covers img_path = record {
    at = λ h w.
        created-Covers (create_server c f h w).0 img_path h (create_server c f h w).1 w.log
          ((create_server-Owes id c f).at h w);
  }

  run_image-Covers : (img_path : String) → Covers (server id) (run_image c f img_path)
  unfolding run_image
  run_image-Covers img_path = Covers-bind _ _ (Covers-Balanced _ (search balance_rules)) λ _.
      Covers-deferring _ _ (Covers-Balanced _ (search balance_rules)) (creating-Covers img_path)

module _ (decode : String → Result ImgInfo) where
  run_hetzner-Covers :
      (id : String) (c : Cloud) (f : HetznerFlags) (img_path : String)
      → f.remove ≡ true
      → Covers (server id) (run_hetzner decode c f img_path)
  unfolding run_hetzner
  run_hetzner-Covers id c f img_path asked =
      search
        (
          cover_rules,
          balance_rules,
          info-Balanced,
          qemu_img-Balanced,
          λ (p : String). run_image-Covers id c f asked p,
        )
        depth 14

  -- Whatever fails on whatever host: if the flag rm is set, then each server that run_hetzner has
  -- created is asked to be deleted, by the handle that the cloud answered, at least as often as it
  -- was created.
  pub run_hetzner-deletes :
      (id : String) (c : Cloud) (f : HetznerFlags) (img_path : String) (h : Host) (w : World Bool)
      → f.remove ≡ true
      → taken (server id) (run_hetzner decode c f img_path h w).1.log + given (server id) w.log
        ≤ given (server id) (run_hetzner decode c f img_path h w).1.log + taken (server id) w.log
  run_hetzner-deletes id c f img_path h w asked = (run_hetzner-Covers id c f img_path asked).at h w
