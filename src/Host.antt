-- ===== src/Host.antt =====
-- The machine that d2vm runs on, as the code sees it, and pkg/exec/exec.go.
-- Each process that the code starts and each system call that it makes is an event of a log.
-- What a call answers is not the program's: a `Host` answers as it likes, from all that was done
-- before, so a statement about every host covers every failure.
pub mod Rules
pub mod Yields
pub mod Logs
pub mod Debts
pub mod Within
pub mod Order
pub mod Mounts
pub mod Healthy
pub mod Gives
pub mod Stays
pub mod Processes
pub mod Covers
pub mod Keeps
pub mod Along
pub mod Routines
use d2vm.Base.{
  ℕ, String, ◌<>◌, Bool, true, false, Option, none, some, List, [], ◌∷◌, Result, ok, err,
  if◌then◌else◌,
}
use d2vm.Text.{join}
use d2vm.Text.Numbers.{ℤ}

pub data Call : Type 0 where
  command : String → List String → Call
  mkdir_all : String → ℕ → Call
  create_file : String → Call
  open_file : String → Call
  close_file : String → Call
  truncate : String → ℤ → Call
  read_file : String → Call
  write_file : String → String → ℕ → Call
  create_temp : String → String → Call
  write_string : String → String → Call
  copy_sparse : String → String → Call
  remove : String → Call
  remove_all : String → Call
  stat : String → Call
  abs_path : String → Call
  look_path : String → Call
  load_image : String → Call
  extract_image : String → String → Call
  new_uuid : Call
  getwd : Call
  chown : String → ℤ → Call
  random_bytes : ℕ → Call
  listen : String → Call
  close_listener : String → Call
  accept : String → Call
  close_socket : String → Call
  -- an operation of the terminal: size, resize, raw or reset
  terminal : String → Call
  -- both directions of copying between the terminal and a socket, until the first one ends
  copy_streams : String → Call
  -- a request to the Hetzner Cloud by hcloud, and an operation of an SSH or SFTP client
  cloud : String → List String → Call
  ssh : String → List String → Call

-- A call that was made, and whether it succeeded. `output` is what a process wrote to its standard
-- output, or the handle that the cloud answered; it is empty for the other calls.
pub record Event : Type 0 where
  pub call : Call
  pub done : Bool
  pub output : String

-- How a process ended: `error` is the error of exec.Cmd's Run, and `combined` is what it wrote to
-- both streams, in the order of writing.
pub record Exit : Type 0 where
  pub stdout : String
  pub stderr : String
  pub combined : String
  pub error : Option String

-- The newest event of a log stands in front. `debug` is what exec.SetDebug was given,
-- `lookup_env` is os.LookupEnv, `size` is the size that
-- os.Stat reports, and `random` is crypto/rand's Read.
-- `rounds` is how often a loop turns until its timer has run off, and `first_done` says which of
-- two goroutines sends its result first.
-- The last three stand for libraries: godotenv.Parse, datasize's UnmarshalText, and the text of
-- the error into which multierr combines a list of errors.
pub record Host : Type 0 where
  pub process : List Event → String → List String → Exit
  pub system : List Event → Call → Result String
  pub size : List Event → String → ℕ
  pub is_not_exist : String → Bool
  pub is_unsupported : String → Bool
  pub debug : Bool
  pub goos : String
  pub goarch : String
  pub uid : ℕ
  pub euid : ℕ
  pub interactive : Bool
  pub lookup_env : String → Option String
  pub uuid : List Event → String
  pub random : List Event → ℕ → Result (List ℕ)
  pub rounds : List Event → ℕ
  pub first_done : List Event → Bool
  pub temp_dir : String
  pub dotenv : String → Result (List (String × String))
  pub parse_size : String → Result ℕ
  pub combined : List String → String

-- What a method's object keeps, and the log.
pub record World (M : Type 0) : Type 0 where
  pub mem : M
  pub log : List Event

abbrev pub Exec : Type 0 → Type 0 → Type 0
Exec M A = Host → World M → Result A × World M

module _ {M A : Type 0} where
  unfoldable pub pure : A → Exec M A
  pure a h w = (ok a, w)

  unfoldable pub raise : String → Exec M A
  raise e h w = (err e, w)

  unfoldable pub lift : Result A → Exec M A
  lift r h w = (r, w)

  unfoldable pub asks : (Host → A) → Exec M A
  asks f h w = (ok (f h), w)

module _ {M A B : Type 0} where
  abbrev pub continue : Result A → (A → Exec M B) → Exec M B
  continue (ok a) f h w = f a h w
  continue (err e) f h w = (err e, w)

  infixl 10 ◌>>=◌ ◌>>◌
  unfoldable pub ◌>>=◌ : Exec M A → (A → Exec M B) → Exec M B
  unfolding pure raise lift asks
  ◌>>=◌ m f h w = let (r, w') = m h w in continue r f h w'

  abbrev pub ◌>>◌ : Exec M A → Exec M B → Exec M B
  m >> n = m >>= λ _. n

  -- `defer`: the second action runs after the first one, whatever came of it, and its error is
  -- dropped.
  unfoldable pub deferring : Exec M B → Exec M A → Exec M A
  deferring late m h w = let (r, w') = m h w in let (_, w'') = late h w' in (r, w'')

  -- The next action runs whatever came of this one.
  unfoldable pub attempt : Exec M A → (Result A → Exec M B) → Exec M B
  attempt m f h w = let (r, w') = m h w in f r h w'

abbrev pub add_event : {M : Type 0} → Call → Bool → World M → World M
add_event call done w = record w { log = record { call = call; done = done; output = "" } ∷ w.log }

abbrev pub is_none {ℓ} : {A : Type ℓ} → Option A → Bool
is_none none = true
is_none (some _) = false

abbrev pub is_ok {ℓ} : {A : Type ℓ} → Result A → Bool
is_ok (ok _) = true
is_ok (err _) = false

-- What the log keeps of an answer.
abbrev pub reply : Call → Result String → String
reply (cloud op args) (ok handle) = handle
reply (cloud op args) (err e) = ""
reply c r = ""

abbrev pub add_answer : {M : Type 0} → Call → Result String → World M → World M
add_answer call r w = record w {
  log = record { call = call; done = is_ok r; output = reply call r } ∷ w.log;
}

abbrev pub add_process : {M : Type 0} → String → List String → Bool → String → World M → World M
add_process c args done output w = record w {
  log = record { call = command c args; done = done; output = output } ∷ w.log;
}

module _ {M A B : Type 0} where
  abbrev branch : (A → Exec M B) → (String → Exec M B) → Result A → Exec M B
  branch f g (ok a) = f a
  branch f g (err e) = g e

  -- `if err != nil`: the first continuation is for a success, the second one for an error.
  unfoldable pub handling : Exec M A → (A → Exec M B) → (String → Exec M B) → Exec M B
  handling m f g h w = let (r, w') = m h w in branch f g r h w'

failure : String → List String → Exit → String → String
failure c args e message =
    c
    <> (" "
        <> (join args " "
            <> (": stdout: "
                <> (e.stdout <> (" stderr: " <> (e.stderr <> (" error: " <> message)))))))

module _ {M : Type 0} where
  -- A process, run to its end.
  unfoldable pub process : String → List String → Exec M Exit
  process c args h w =
      let e = h.process w.log c args in (ok e, add_process c args (is_none e.error) e.stdout w)

  -- Any other call.
  unfoldable pub system : Call → Exec M String
  system call h w = let r = h.system w.log call in (r, add_answer call r w)

  unfoldable pub system_ : Call → Exec M (Unit {0})
  system_ call = do system call; pure tt

  -- uuid.New
  unfoldable pub new_uuid_text : Exec M String
  new_uuid_text h w = (ok (h.uuid w.log), add_event new_uuid true w)

  -- The bytes that fill a slice of that length.
  unfoldable pub read_random : ℕ → Exec M (List ℕ)
  read_random n h w = let r = h.random w.log n in (r, add_event (random_bytes n) (is_ok r) w)

  unfoldable pub gets : {A : Type 0} → (M → A) → Exec M A
  gets f h w = (ok (f w.mem), w)

  unfoldable pub modify : (M → M) → Exec M (Unit {0})
  modify f h w = (ok tt, record w { mem = f w.mem })

  -- The size in the answer of the os.Stat that was just made.
  unfoldable pub stat_size : String → Exec M ℕ
  stat_size path h w = (ok (h.size w.log path), w)

  pub outputs : String → List String → Exit → Option String → Exec M (String × String)
  outputs c args e none = pure (e.stdout, e.stderr)
  outputs c args e (some message) = raise (failure c args e message)

  -- RunOut
  unfoldable pub run_out : String → List String → Exec M (String × String)
  unfolding process outputs failure
  run_out c args = do e ← process c args; outputs c args e e.error

  -- RunNoOut
  unfoldable pub run_no_out : String → List String → Exec M (Unit {0})
  unfolding run_out
  run_no_out c args = do run_out c args; pure tt

  pub combined_of : Exit → Option String → Exec M String
  combined_of e none = pure e.combined
  combined_of e (some message) = raise (message <> (": " <> e.combined))

  pub finish : Option String → Exec M (Unit {0})
  finish none = pure tt
  finish (some message) = raise message

  -- RunDebug
  unfoldable pub run_debug : String → List String → Exec M (Unit {0})
  unfolding process finish
  run_debug c args = do e ← process c args; finish e.error

  -- Run, the variable that SetDebug assigns
  unfoldable pub run : String → List String → Exec M (Unit {0})
  unfolding run_no_out run_debug
  run c args = do debug ← asks (λ h. h.debug); if debug then run_debug c args else run_no_out c args

  -- CommandContext with the CombinedOutput of the command that it makes.
  unfoldable pub run_combined : String → List String → Exec M String
  unfolding process combined_of
  run_combined c args = do e ← process c args; combined_of e e.error

  -- CommandContext with the Run of the command that it makes.
  unfoldable pub run_command : String → List String → Exec M (Unit {0})
  unfolding process finish
  run_command c args = do e ← process c args; finish e.error

module _ {M S A : Type 0} where
  -- An object with a state of its own, which is dropped at the end.
  unfoldable pub with_object : S → Exec S A → Exec M A
  with_object s m h w =
      let (r, w') = m h (record { mem = s; log = w.log }) in (r, record w { log = w'.log })

-- SetDebug
pub set_debug : Bool → Host → Host
set_debug debug h = record h { debug = debug }
