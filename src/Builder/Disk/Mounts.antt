-- ===== src/Builder/Disk/Mounts.antt =====
-- What mountImg takes from the host, and what unmountImg gives back.
use d2vm.Base.{ℕ, ◌+◌, String, ◌≡◌, Bool, false, List, [], ◌∷◌, if◌then◌else◌, arith}
use d2vm.Host.{Host, World, command, ◌>>=◌, gets, handling, run}
use d2vm.Host.Rules.{Moves, Balanced, balance_rules}
use d2vm.Host.Logs.{log-run}
use d2vm.Host.Debts.{Owes, nothing, due-nothing, Owes-Balanced, Owes-bind}
use d2vm.Host.Mounts.{Held, is_loop, is_maps, is_crypt, mounts, held}
use d2vm.Files.Laws.{block-Balanced, move_file-Balanced}
use d2vm.Builder.Defs.{Builder, Devices, is_luks_enabled}
use d2vm.Builder.New.Mounts.{combine-Balanced}
use d2vm.Builder.New.{combine}
use d2vm.Builder.Disk.{
  clean_up, make_img, convert_to_img, boot_dir, run_each, unmount_commands, unmount_img,
}

abbrev pub one_if : Bool → ℕ
one_if b = if b then 1 else 0

-- What a builder holds of each resource between mountImg and unmountImg, as its fields name it.
abbrev pub attached : Held → Devices → ℕ
attached k d = one_if (is_loop k d.lo_device) + one_if (is_maps k d.lo_device)

abbrev pub boot_count : Builder → Held → ℕ
boot_count b k = if b.split_boot then one_if (mounts k (boot_dir b)) else 0

abbrev pub with_crypt : Builder → Held → Devices → ℕ
with_crypt b k d =
    attached k d
    + one_if (is_crypt k d.mapped_crypt_root)
    + one_if (mounts k b.mnt_point)
    + boot_count b k

abbrev pub without_crypt : Builder → Held → Devices → ℕ
without_crypt b k d = attached k d + one_if (mounts k b.mnt_point) + boot_count b k

abbrev pub holds : Builder → Held → Devices → ℕ
holds b k d = if is_luks_enabled b then with_crypt b k d else without_crypt b k d

module _ (k : Held) where
  pub clean_up-Balanced : (b : Builder) → Balanced (held k) (clean_up b)
  unfolding clean_up
  clean_up-Balanced b = search balance_rules

  pub make_img-Balanced : (b : Builder) → Balanced (held k) (make_img b)
  unfolding make_img
  make_img-Balanced b = search (balance_rules, block-Balanced)

  -- How much a list of commands gives back.
  abbrev released : List (String × List String) → ℕ
  released [] = 0
  released ((c, args) ∷ commands) = one_if ((held k).gives (command c args)) + released commands

  abbrev OnlyRelease : List (String × List String) → Type 0
  OnlyRelease [] = Unit
  OnlyRelease ((c, args) ∷ commands) =
      ((held k).takes (command c args) ≡ false) × OnlyRelease commands

  run_each-Moves :
      (commands : List (String × List String))
      → OnlyRelease commands
      → (h : Host) (w : World Devices)
      → Moves (held k) 0 (released commands) w.log (run_each commands h w).1.log
  unfolding run_each handling ◌>>=◌
  run_each-Moves [] _ h w = omega arith
  run_each-Moves ((c, args) ∷ commands) (quiet, rest) h w =
      ground (arith, log-run c args h w, run_each-Moves commands rest h (run c args h w).1)

  run_each-Owes :
      (commands : List (String × List String))
      → OnlyRelease commands
      → Owes (held k) (released commands) nothing (run_each {M = Devices} commands)
  run_each-Owes commands only = record {
    at = λ h w.
        omega (arith, run_each-Moves commands only h w, due-nothing (run_each commands h w).0);
  }

unmount_commands-OnlyRelease :
    (k : Held) (b : Builder) (d : Devices) → OnlyRelease k (unmount_commands b d)
unfolding unmount_commands
unmount_commands-OnlyRelease k b d = ground arith

released-unmount_commands :
    (k : Held) (b : Builder) (d : Devices) → released k (unmount_commands b d) ≡ holds b k d
unfolding unmount_commands
released-unmount_commands k b d = ground arith

-- unmountImg gives back what the builder's fields name, whether it succeeds or fails.
pub unmount_img-Moves :
    (k : Held) (b : Builder) (h : Host) (w : World Devices)
    → Moves (held k) 0 (holds b k w.mem) w.log (unmount_img b h w).1.log
unfolding unmount_img gets ◌>>=◌
unmount_img-Moves k b h w =
    let commands = unmount_commands b w.mem in
    let m = run_each {M = Devices} commands >>= combine in
    let owes : Owes (held k) (released k commands) nothing m =
      Owes-bind nothing nothing (released k commands) _ _
        (run_each-Owes k commands (unmount_commands-OnlyRelease k b w.mem))
        λ errors. Owes-Balanced _ (combine-Balanced k errors) in
    omega (arith, owes.at h w, due-nothing (m h w).0, released-unmount_commands k b w.mem)

module _ (k : Held) (b : Builder) where
  pub convert_to_img-Balanced : Balanced (held k) (convert_to_img b)
  unfolding convert_to_img
  convert_to_img-Balanced = search (balance_rules, move_file-Balanced)
