-- ===== src/Nclet/Ssh/Server/Keys.antt =====
-- The host key over two starts of nclet.
use netcon_problem_managemen.Prelude.{
  ◌≢◌, String, true, false, ◌≡◌, ok, err, arith, Result-cases, Option, none, some, inl, inr,
}
use netcon_problem_managemen.Kube.{ApiError}
use netcon_problem_managemen.Nclet.Ssh.Server.{
  Keyring, not_generated, rsa_host_key_path, ensure_rsa_host_key, inject_host_keys,
}

-- The text of the key file, `none` where it is not there: the documented behaviour of package os for
-- this one file, which nobody else changes. `create` makes it empty; the other calls leave it alone.
pub record KeyFileLaws {C Key : Type 0} (keyring : Keyring C Key) (text : C → Option String)
    : Type 0 where
  pub stat :
      (c : C)
      → (keyring.stat rsa_host_key_path c).0 ≡ (elim (text c) [ none ↦ false | some t ↦ true ])
  pub stat_same : (c : C) → text (keyring.stat rsa_host_key_path c).1 ≡ text c
  pub created :
      (c : C)
      → (keyring.create rsa_host_key_path c).0 ≡ ok tt
      → text (keyring.create rsa_host_key_path c).1 ≡ some ""
  pub generate : (c : C) → text (keyring.generate c).1 ≡ text c
  pub read :
      (c : C) (content : String)
      → (keyring.read_file rsa_host_key_path c).0 ≡ ok content
      → text c ≡ some content
  pub read_same : (c : C) → text (keyring.read_file rsa_host_key_path c).1 ≡ text c

module _ {C Key : Type 0} (keyring : Keyring C Key) (text : C → Option String)
    (laws : KeyFileLaws keyring text) where
  -- With the file there, what comes of the key depends on its text alone.
  inject_there :
      (c : C) (content : String) (key : Key)
      → text c ≡ some content
      → (inject_host_keys keyring c).0 ≡ ok key
      → keyring.parse_private_key content ≡ ok key
  unfolding inject_host_keys ensure_rsa_host_key
  inject_there c content key at done =
      let there : (keyring.stat rsa_host_key_path c).0 ≡ true = ground (arith, laws.stat c, at) in
      let c1 : C = (keyring.stat rsa_host_key_path c).1 in
      elim (Result-cases (keyring.read_file rsa_host_key_path c1).0) [
        | inr (e, unread) ↦ absurd (ground (arith, done))
        | inl (found, got) ↦
            let same = laws.read c1 found got in
            let kept = laws.stat_same c in
            elim (Result-cases (keyring.parse_private_key found)) [
              | inr (e, bad) ↦ absurd (ground (arith, done))
              | inl (parsed, good) ↦ ground (arith, same, kept, at, done)
            ]
      ]

  -- A key that is injected is that of the file afterwards.
  injected_text :
      (c : C) (key : Key)
      → (inject_host_keys keyring c).0 ≡ ok key
      → (content : String) × (text (inject_host_keys keyring c).1 ≡ some content)
        × (keyring.parse_private_key content ≡ ok key)
  unfolding inject_host_keys
  injected_text c key done =
      let c1 : C = (ensure_rsa_host_key keyring c).1 in
      elim (Result-cases (ensure_rsa_host_key keyring c).0) [
        | inr (e, missing) ↦ absurd (ground (arith, done))
        | inl (tt, there) ↦ elim (Result-cases (keyring.read_file rsa_host_key_path c1).0) [
          | inr (e, unread) ↦ absurd (ground (arith, done))
          | inl (found, got) ↦ elim (Result-cases (keyring.parse_private_key found)) [
            | inr (e, bad) ↦ absurd (ground (arith, done))
            | inl (parsed, good) ↦ (
              found,
              ground (arith, laws.read c1 found got, laws.read_same c1),
              ground (arith, done),
            )
          ]
        ]
      ]

  -- A server that is started again serves with the host key that it had, if it comes to serve: the
  -- file is as the first start left it, and package os keeps its word.
  inject_host_keys-again :
      (c c' : C) (key key' : Key)
      → text c' ≡ text (inject_host_keys keyring c).1
      → (inject_host_keys keyring c).0 ≡ ok key
      → (inject_host_keys keyring c').0 ≡ ok key'
      → key' ≡ key
  inject_host_keys-again c c' key key' same first second =
      let (content, at, parsed) = injected_text c key first in
      let again = inject_there c' content key' (ground (arith, same, at)) second in
      ground (arith, parsed, again)

  -- A first start that creates the file of the host key but fails to generate the key leaves the empty
  -- file, and no later start ever serves, as long as the file is left alone: an empty text is no key.
  pub inject_host_keys-stuck :
      (c c' : C) (e : ApiError)
      → text c ≡ none
      → (e' : ApiError) → keyring.parse_private_key "" ≡ err e'
      → let c1 = (keyring.stat rsa_host_key_path c).1 in
        let c2 = (keyring.create rsa_host_key_path c1).1 in
        (keyring.create rsa_host_key_path c1).0 ≡ ok tt
        → (keyring.generate c2).0 ≡ err e
        → text c' ≡ text (inject_host_keys keyring c).1
        → ((inject_host_keys keyring c).0 ≡ err (not_generated e))
          × ((key : Key) → (inject_host_keys keyring c').0 ≢ ok key)
  unfolding inject_host_keys ensure_rsa_host_key
  inject_host_keys-stuck c c' e absent e' no_key made failed same =
      let c1 : C = (keyring.stat rsa_host_key_path c).1 in
      let c2 : C = (keyring.create rsa_host_key_path c1).1 in
      let away : (keyring.stat rsa_host_key_path c).0 ≡ false =
        ground (arith, laws.stat c, absent) in
      let left : text (inject_host_keys keyring c).1 ≡ some "" =
        ground (arith, laws.created c1 made, laws.generate c2) in
      (
        ground arith,
        λ key done.
            let parsed = inject_there c' "" key (ground (arith, same, left)) done in
            absurd (ground (arith, parsed, no_key)),
      )
