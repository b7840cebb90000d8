-- ===== src/Files.antt =====
-- MoveFile of convert.go and block of builder.go.
pub mod Laws
use d2vm.Base.{ℕ, ◌-◌, ◌%◌, ◌^◌, String, ◌<>◌, Result, ok, err, ltb, if◌then◌else◌}
use d2vm.Text.Numbers.{ℤ, pos, negsuc}
use d2vm.Host.{
  Exec, open_file, create_file, close_file, copy_sparse, truncate, remove, pure, raise, ◌>>=◌, ◌>>◌,
  deferring, attempt, handling, system, system_,
}

-- `fmt.Errorf(prefix + "%s", err)` where the action fails.
unfoldable pub wrap : {M A : Type 0} → String → Exec M A → Exec M A
wrap prefix m = handling m (λ a. pure a) (λ e. raise (prefix <> e))

-- The source is closed at once when the destination cannot be made, and else after the copy; the
-- destination is closed at the end. The source is removed only after a copy that succeeded.
unfoldable pub move_file : {M : Type 0} → String → String → Exec M (Unit {0})
unfolding wrap
move_file source dest = do
  wrap "failed to open source file: " (system_ (open_file source))
  handling (system_ (create_file dest))
      (λ _. deferring (system_ (close_file dest)) (
        handling (system_ (copy_sparse source dest))
          (λ _.
            attempt (system_ (close_file source))
              λ _. wrap "failed to remove original file: " (system_ (remove source)))
          (λ e.
            attempt (system_ (close_file source))
              λ _. raise ("failed to write to output file: " <> e))))
      (λ e. attempt (system_ (close_file source)) λ _. raise ("failed to open dest file: " <> e))

-- Go's conversion of a uint64 to an int64.
unfoldable pub to_int64 : ℕ → ℤ
to_int64 n = let low = n % 2 ^ 64 in if ltb low (2 ^ 63) then pos low else negsuc (2 ^ 64 - 1 - low)

unfoldable pub block : {M : Type 0} → String → ℕ → Exec M (Unit {0})
unfolding to_int64
block path size = do
  system_ (create_file path)
  deferring (system_ (close_file path)) (system_ (truncate path (to_int64 size)))
