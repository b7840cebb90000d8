-- ===== src/RunUtil/Progress.antt =====
-- cmd/d2vm/run/util.go: the reader that counts what it reads, and SplitLines.
use d2vm.Base.{ℕ, ◌+◌, ◌≤◌, String, ◌==◌, Option, List, [], ◌∷◌, leb, if◌then◌else◌, arith}
use d2vm.Text.{split, trim_suffix}
use Prim.Native.String.{len}

-- The lines of a bufio.Scanner, which stops at a line that fills its buffer of 64 KiB.
lines_of : List String → List String
lines_of [] = []
lines_of (last ∷ []) =
    if leb 65536 (len last) then [] else if last == "" then [] else trim_suffix last "\r" ∷ []
lines_of (s ∷ t ∷ rest) =
    let others = lines_of (t ∷ rest) in
    if leb 65536 (len s) then [] else trim_suffix s "\r" ∷ others

-- SplitLines; the Scanner's error is dropped.
unfoldable pub split_lines : String → List String
unfolding lines_of
split_lines text = lines_of (split 10 text)

-- pw without its lock; its field `size` is never used.
pub record Pw : Type 0 where
  pub total : ℕ
  pub size : ℕ

unfoldable pub new_progress_reader : Pw
new_progress_reader = record { total = 0; size = 0 }

unfoldable pub progress : Pw → ℕ
progress p = p.total

-- `inner` is the Read of the reader that is wrapped: for the length of the buffer, how many
-- bytes it has put there and its error.
module _ (inner : ℕ → ℕ × Option String) where
  unfoldable pub read : ℕ → Pw → (ℕ × Option String) × Pw
  read buf p = (inner buf, record p { total = p.total + buf })

  -- One Read after the other: the number of bytes that were read.
  unfoldable pub read_all : List ℕ → Pw → ℕ × Pw
  unfolding read
  read_all [] p = (0, p)
  read_all (buf ∷ bufs) p =
      let (answer, p') = read buf p in let (n, q) = read_all bufs p' in (answer.0 + n, q)

  -- The progress never falls behind what was read, for a reader that does not read more than the
  -- buffer holds.
  progress-read_all :
      (bufs : List ℕ) (p : Pw)
      → ((buf : ℕ) → (inner buf).0 ≤ buf)
      → progress p + (read_all bufs p).0 ≤ progress (read_all bufs p).1
  unfolding progress read_all read
  progress-read_all [] p fits = omega arith
  progress-read_all (buf ∷ bufs) p fits =
      omega (arith, fits buf, progress-read_all bufs (record p { total = p.total + buf }) fits)
