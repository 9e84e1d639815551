-- ===== src/Startup/Nclet.antt =====
-- cmd/nclet/main.go, and `SetupWithManager` of the reconciler. What the machine answers is a parameter. The errors that `main` only logs leave
-- their value as the failing call returns it.
pub mod Parts
pub mod Added
pub mod Started
pub mod Chosen
mod Examples
use Prim.Native.Char.{Char, code}
use Prim.Native.String
use netcon_problem_managemen.Prelude.{
  ℕ, zero, suc, ◌+◌, ◌-◌, ◌*◌, ◌/◌, String, Bool, true, false, not, ◌&&◌, Option, none, some, List,
  [], ◌∷◌, ◌==◌, eqb, ltb, leb, Result, ok, err, if◌then◌else◌,
}
use netcon_problem_managemen.Prelude.Int.{ℤ, pos, negsuc}
use netcon_problem_managemen.Kube.{ApiError}
use netcon_problem_managemen.Host.{H, pure, ◌>>=◌}
use netcon_problem_managemen.Crypto.{generate_password}
use netcon_problem_managemen.Startup.{Outcome, exited, panicked, Step, Manager, call, add, launch}

pub record Flags : Type 0 where
  pub ssh_addr : String
  pub external_ip_addr : String
  pub config_dir : String
  pub admin_pass : String
  pub worker_class : String
  pub heartbeat_interval : String
  pub status_update_interval : String
  pub max_workers : ℤ

-- The reconciler has the host name, the directory of the driver, and the number of reconciles at once;
-- the SSH server its address and the password; the agent the host name, the class, the address and
-- the port, and the intervals of its tickers in nanoseconds.
pub data NcletPart : Type 0 where
  reconciler : String → String → ℤ → NcletPart
  ssh_server : String → String → NcletPart
  heartbeat_agent : String → String → String → ℕ → ℤ → ℤ → NcletPart
  health_check ready_check : NcletPart

-- The machine: tracing, the host name, `time.ParseDuration` and `cpu.Counts`, with what they return
-- beside an error, and the random source of `GeneratePassword`.
pub record Machine (C : Type 0) : Type 0 where
  pub setup_tracing : H C (Result ApiError (Unit {0}))
  pub hostname : H C (Result ApiError String)
  pub random : ℕ → Option ℕ
  pub parse_duration : String → ℤ
  pub cpu_counts : H C ℕ

-- The password of the administrators: one is generated where none is given; on an error of
-- `GeneratePassword`, which is only logged, it is the text beside the error, the empty one.
pub choose_admin_password : (ℕ → Option ℕ) → String → String
choose_admin_password random given =
    if given == ""
    then elim (generate_password random (pos 64)) [ err e ↦ "" | ok password ↦ password ]
    else given

pub has_colon : String → Bool
has_colon String.[] = false
has_colon (String.◌∷◌ c s) = let later = has_colon s in if eqb (code c) b':' then true else later

-- The text after the last colon, the whole text if there is none: `sshAddr[idx+1:]`.
pub after_last_colon : String → String
after_last_colon String.[] = ""
after_last_colon (String.◌∷◌ c s) =
    let rest = after_last_colon s in
    if has_colon s then rest else if eqb (code c) b':' then s else String.◌∷◌ c s

-- What `strconv.ParseUint` returns, beside an error or not: the loop over the digits, with `n` so far.
pub uint_from : ℕ → ℕ → String → ℕ
uint_from max n String.[] = n
uint_from max n (String.◌∷◌ c s) =
    let rest = uint_from max (n * 10 + (code c - 48)) s in
    if not (leb 48 (code c) && leb (code c) 57)
    then 0
    else if ltb max (n * 10 + (code c - 48))
    then max
    else rest

-- The port of the heartbeat, which is 16 bits wide.
pub reported_port : String → ℕ
reported_port ssh_addr = uint_from 65535 0 (after_last_colon ssh_addr)

-- An eighth of the cores, unless the flag says otherwise, and at least one.
pub concurrency : ℤ → ℕ → ℤ
concurrency (pos zero) cores = if eqb (cores / 8) 0 then pos 1 else pos (cores / 8)
concurrency (pos (suc n)) cores = pos (suc n)
concurrency (negsuc n) cores = negsuc n

pub is_positive : ℤ → Bool
is_positive (pos zero) = false
is_positive (pos (suc n)) = true
is_positive (negsuc n) = false

module _ {C : Type 0} (manager : Manager C NcletPart) (machine : Machine C) (flags : Flags) where
  -- `time.NewTicker` panics on an interval that is not positive. The agent's place under the manager is
  -- the only one whose refusal is only logged.
  pub add_agent : String → H (C × List (Step NcletPart)) Outcome
  add_agent host =
      let heartbeat_interval = machine.parse_duration flags.heartbeat_interval in
      let status_update_interval = machine.parse_duration flags.status_update_interval in
      if not (is_positive heartbeat_interval && is_positive status_update_interval)
      then pure panicked
      else (do
        taken ← add manager (
            heartbeat_agent host flags.worker_class flags.external_ip_addr
              (reported_port flags.ssh_addr) heartbeat_interval status_update_interval)
        launch manager (health_check ∷ ready_check ∷ []))

  -- The cores are counted only where the flag is 0.
  pub count_cores : ℤ → H (C × List (Step NcletPart)) ℕ
  count_cores (pos zero) = call machine.cpu_counts
  count_cores (pos (suc n)) = pure 0
  count_cores (negsuc n) = pure 0

  -- `main` after the host name.
  pub add_parts : String → H (C × List (Step NcletPart)) Outcome
  add_parts host = do
    cores ← count_cores flags.max_workers
    taken ← add manager (reconciler host flags.config_dir (concurrency flags.max_workers cores))
    if not taken then pure exited else (do
      served ←
          add manager
            (ssh_server flags.ssh_addr (choose_admin_password machine.random flags.admin_pass))
      if not served then pure exited else add_agent host)

  pub after_hostname : Result ApiError String → H (C × List (Step NcletPart)) Outcome
  after_hostname (err e) = pure exited
  after_hostname (ok host) = add_parts host

  pub after_manager : Result ApiError (Unit {0}) → H (C × List (Step NcletPart)) Outcome
  after_manager (err e) = pure exited
  after_manager (ok _) = do named ← call machine.hostname; after_hostname named

  pub after_tracing : Result ApiError (Unit {0}) → H (C × List (Step NcletPart)) Outcome
  after_tracing (err e) = pure exited
  after_tracing (ok _) = do made ← call manager.new_manager; after_manager made

  -- `main` after the check of the class.
  pub prepare : H (C × List (Step NcletPart)) Outcome
  prepare = do traced ← call machine.setup_tracing; after_tracing traced

  pub run_nclet : H (C × List (Step NcletPart)) Outcome
  run_nclet = if flags.worker_class == "" then pure exited else prepare
