-- ===== src/Files/Laws.antt =====
-- Moving and making files leaves mounts and devices alone.
use d2vm.Base.{String, ℕ}
use d2vm.Host.{Exec}
use d2vm.Host.Rules.{Balanced, balance_rules}
use d2vm.Host.Mounts.{Held, held}
use d2vm.Files.{wrap, move_file, block}

module _ (k : Held) {M : Type 0} where
  pub wrap-Balanced :
      {A : Type 0} (prefix : String) (m : Exec M A)
      → Balanced (held k) m
      → Balanced (held k) (wrap prefix m)
  unfolding wrap
  wrap-Balanced prefix m b = search balance_rules

  pub move_file-Balanced :
      (source dest : String) → Balanced (held k) {M = M} (move_file source dest)
  unfolding move_file
  move_file-Balanced source dest = search (balance_rules, wrap-Balanced) depth 14

  pub block-Balanced : (path : String) (size : ℕ) → Balanced (held k) {M = M} (block path size)
  unfolding block
  block-Balanced path size = search balance_rules
