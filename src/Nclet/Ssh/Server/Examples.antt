-- ===== src/Nclet/Ssh/Server/Examples.antt =====
-- Two attempts to log in, two sessions that overlap, and a key file on its own.
use netcon_problem_managemen.Prelude.{
  ◌+◌, String, true, false, ◌≡◌, ◌≢◌, refl, List, [], ◌∷◌, length, Result, ok, err, arith, Option,
  none, some, ◌==◌, if◌then◌else◌,
}
use netcon_problem_managemen.Kube.{ApiError, not_found, failed}
use netcon_problem_managemen.Nclet.Ssh.Server.{
  Keyring, Counters, begin_session, end_session, inject_host_keys, ensure_rsa_host_key,
  not_generated,
}
use netcon_problem_managemen.Nclet.Ssh.Server.Counts.{none_yet, begins, finishes, Serving-counts}
use netcon_problem_managemen.Nclet.Ssh.Server.Keys.{KeyFileLaws, inject_host_keys-stuck}

abbrev zeros : Counters
zeros = record { succeeded = 0; failed = 0; in_flight = 0; durations = [] }

abbrev attempts : List (String × String)
attempts = ("ncadmin_env", "secret") ∷ ("nc_env", "guess") ∷ []

-- One session is over while the other goes on.
abbrev overlapping : Counters
overlapping = end_session (err "failed to start pty") 3 (begin_session (begin_session zeros))

Serving-counts_example :
    (overlapping.in_flight ≡ 0 + 1)
    × (length overlapping.durations ≡ 0 + 1)
    × (overlapping.succeeded ≡ 0)
    × (overlapping.failed ≡ 0)
Serving-counts_example =
    Serving-counts
      (finishes (err "failed to start pty") 3 (begins (begins (none_yet {counters = zeros}))))

-- The file alone is the machine; the text of a key is the key.
abbrev ring : Result ApiError String → Keyring (Option String) String
ring generated = record {
  stat = λ path c. ((elim c [ none ↦ false | some t ↦ true ]), c);
  create = λ path c. (ok tt, some "");
  generate = λ c. (generated, c);
  encode = λ path key c. (ok tt, some key);
  read_file = λ path c. ((elim c [ none ↦ err not_found | some t ↦ ok t ]), c);
  parse_private_key = λ text. if text == "" then err (failed "no key found") else ok text;
  listen_and_serve = λ key c. (err (failed "closed"), c);
}

reads :
    (c : Option String) (content : String)
    → (elim c [ none ↦ err not_found | some t ↦ ok t ]) ≡ ok content
    → c ≡ some content
reads none content h = absurd (ground (arith, h))
reads (some t) content h = ground (arith, h)

ring-KeyFileLaws : (generated : Result ApiError String) → KeyFileLaws (ring generated) (λ c. c)
ring-KeyFileLaws generated = record {
  stat = λ c. refl;
  stat_same = λ c. refl;
  created = λ c done. refl;
  generate = λ c. refl;
  read = reads;
  read_same = λ c. refl;
}

inject_host_keys-stuck_example :
    ((inject_host_keys (ring (err (failed "no entropy"))) none).0
      ≡ err (not_generated (failed "no entropy")))
    × ((key : String) → (inject_host_keys (ring (err (failed "no entropy"))) (some "")).0 ≢ ok key)
unfolding inject_host_keys ensure_rsa_host_key
inject_host_keys-stuck_example =
    inject_host_keys-stuck (ring (err (failed "no entropy"))) (λ c. c)
      (ring-KeyFileLaws (err (failed "no entropy"))) none (some "") (failed "no entropy") refl
      (failed "no key found") refl refl refl refl
