-- ===== src/Nclet/Ssh/Server.antt =====
-- controllers/nclet/ssh_server.go, `Start` with its two handlers and the host key, and metrics.go. The
-- package crypto/rsa, the PEM encoding and the SSH library are parameters. The counters are Prometheus's,
-- as whole numbers; of the histogram the observations are kept, the newest first. The library calls the
-- session handler of each session in a goroutine of its own: `begin_session` is what it does before
-- `handle`, `end_session` what it does after it.
pub mod Counts
pub mod Keys
mod Examples
use netcon_problem_managemen.Prelude.{
  ℕ, suc, ◌-◌, String, Bool, true, false, List, [], ◌∷◌, Result, ok, err, if◌then◌else◌,
}
use netcon_problem_managemen.Kube.{ApiError, Client, World}
use netcon_problem_managemen.Host.{H, pure, ◌>>=◌}
use netcon_problem_managemen.Strings.FilePath.{path_join}
use netcon_problem_managemen.Nclet.Ssh.{handle_password_authentication}

-- sshAuthTotalSucceeded, sshAuthTotalFailed, sshSessionsInFlight and sshSessionDuration
pub record Counters : Type 0 where
  pub succeeded : ℕ
  pub failed : ℕ
  pub in_flight : ℕ
  pub durations : List ℕ

-- The password handler.
pub password_handler :
    {C : Type 0}
    → Client C
    → String
    → String
    → String
    → World C × Counters
    → Bool × (World C × Counters)
password_handler k admin_password user_name password (w, counters) =
    let (result, w') = handle_password_authentication k admin_password user_name password w in
    elim result [
      | err e ↦ (false, (w', record counters { failed = suc counters.failed }))
      | ok _ ↦ (true, (w', record counters { succeeded = suc counters.succeeded }))
    ]

-- The attempts that the server answers, one after another.
pub answer_all :
    {C : Type 0}
    → Client C
    → String
    → List (String × String)
    → World C × Counters
    → List Bool × (World C × Counters)
answer_all k admin_password [] state = ([], state)
answer_all k admin_password ((user_name, password) ∷ attempts) state =
    let (accepted, state') = password_handler k admin_password user_name password state in
    let (rest, state'') = answer_all k admin_password attempts state' in (accepted ∷ rest, state'')

pub begin_session : Counters → Counters
begin_session counters = record counters { in_flight = suc counters.in_flight }

-- The duration is observed on both branches, and then the deferred `Dec` runs.
pub end_session : Result String (Unit {0}) → ℕ → Counters → Counters
end_session result duration counters = elim result [
  | err e ↦ record counters {
    durations = duration ∷ counters.durations;
    in_flight = counters.in_flight - 1;
  }
  | ok _ ↦ record counters {
    durations = duration ∷ counters.durations;
    in_flight = counters.in_flight - 1;
  }
]

abbrev pub rsa_host_key_path : String
rsa_host_key_path = path_join ("data" ∷ "ssh_host_rsa_key" ∷ [])

-- What the host key needs: files, `rsa.GenerateKey`, `pem.Encode` into a created file, and
-- `gossh.ParsePrivateKey`; and `ListenAndServe` with a host key.
pub record Keyring (C Key : Type 0) : Type 0 where
  pub stat : String → H C Bool
  pub create : String → H C (Result ApiError (Unit {0}))
  pub generate : H C (Result ApiError Key)
  pub encode : String → Key → H C (Result ApiError (Unit {0}))
  pub read_file : String → H C (Result ApiError String)
  pub parse_private_key : String → Result ApiError Key
  pub listen_and_serve : Key → H C (Result ApiError (Unit {0}))

-- What `Start` returns.
pub data ServerError : Type 0 where
  not_created not_generated not_encoded not_read not_parsed not_served : ApiError → ServerError

module _ {C Key : Type 0} (keyring : Keyring C Key) where
  pub ensure_rsa_host_key : H C (Result ServerError (Unit {0}))
  ensure_rsa_host_key = do
    there ← keyring.stat rsa_host_key_path
    if there then pure (ok tt) else (do
      created ← keyring.create rsa_host_key_path
      elim created [
        | err e ↦ pure (err (not_created e))
        | ok _ ↦ do
          generated ← keyring.generate
          elim generated [
            | err e ↦ pure (err (not_generated e))
            | ok key ↦ do
              encoded ← keyring.encode rsa_host_key_path key
              pure (elim encoded [ err e ↦ err (not_encoded e) | ok _ ↦ ok tt ])
          ]
      ])

  -- The key that is added to the server.
  pub inject_host_keys : H C (Result ServerError Key)
  inject_host_keys = do
    ensured ← ensure_rsa_host_key
    elim ensured [
      | err e ↦ pure (err e)
      | ok _ ↦ do
        read ← keyring.read_file rsa_host_key_path
        pure (elim read [
          | err e ↦ err (not_read e)
          | ok text ↦ elim (keyring.parse_private_key text) [
            | err e ↦ err (not_parsed e)
            | ok key ↦ ok key
          ]
        ])
    ]

  pub start : H C (Result ServerError (Unit {0}))
  start = do
    injected ← inject_host_keys
    elim injected [
      | err e ↦ pure (err e)
      | ok key ↦ do
        served ← keyring.listen_and_serve key
        pure (elim served [ err e ↦ err (not_served e) | ok _ ↦ ok tt ])
    ]
