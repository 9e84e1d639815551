-- ===== src/Startup/Nclet/Chosen.antt =====
-- The password of the administrators, and the port that nclet reports.
use Prim.Native.Char.{code}
use text.Mathlib.TextLemmas.{nil-append, cons-append}
use netcon_problem_managemen.Prelude.{
  ne_of_==, ◌⊎◌, ℕ, ◌+◌, ◌-◌, ◌*◌, ◌<◌, ◌≤◌, String, true, false, ◌&&◌, ◌≡◌, ◌≢◌, ◌↔◌, refl, inl,
  inr, Option, some, ok, err, ◌==◌, eq_iff, leb, concat, arith, Bool-cases, Option-cases,
  Result-cases,
}
use netcon_problem_managemen.Prelude.Int.{pos}
use netcon_problem_managemen.Kube.{Client, World}
use netcon_problem_managemen.Crypto.{generate_password, rune_count}
use netcon_problem_managemen.Crypto.Alphabet.{Alphanumeric, generate_password_ok}
use netcon_problem_managemen.Strings.Split.{concat-single}
use netcon_problem_managemen.Strings.Decimal.{digits, parse_uint}
use netcon_problem_managemen.Nclet.Ssh.{User, parse_user, handle_password_authentication}
use netcon_problem_managemen.Nclet.Ssh.Passwords.{handle_password_authentication-admin}
use netcon_problem_managemen.Startup.Nclet.{
  choose_admin_password, has_colon, after_last_colon, uint_from, reported_port,
}

digits-colon : (n : ℕ) (s : String) (m : ℕ) → digits n s ≡ some m → has_colon s ≡ false
unfolding digits has_colon
digits-colon n String.[] m h = refl
digits-colon n (String.◌∷◌ c s) m h = ground (arith, h, digits-colon (n * 10 + (code c - 48)) s m)

has_colon-concat : (host text : String) → has_colon (concat host (concat ":" text)) ≡ true
unfolding has_colon
has_colon-concat String.[] text =
    rw (nil-append (concat ":" text)) (rw (concat-single ":" text) refl)
has_colon-concat (String.◌∷◌ c host) text =
    rw (cons-append c host (concat ":" text)) (ground (arith, has_colon-concat host text))

after_last_colon-concat :
    (host text : String)
    → has_colon text ≡ false
    → after_last_colon (concat host (concat ":" text)) ≡ text
unfolding after_last_colon has_colon
after_last_colon-concat String.[] text plain =
    rw (nil-append (concat ":" text)) (rw (concat-single ":" text) (ground (arith, plain)))
after_last_colon-concat (String.◌∷◌ c host) text plain =
    rw (cons-append c host (concat ":" text))
      (ground (arith, has_colon-concat host text, after_last_colon-concat host text plain))

-- As long as the number fits, the loop reads what `digits` reads.
uint_from-digits :
    (max n : ℕ) (s : String) (m : ℕ)
    → digits n s ≡ some m
    → m ≤ max
    → (n ≤ m) × (uint_from max n s ≡ m)
unfolding digits uint_from
uint_from-digits max n String.[] m h fits = ground (arith, h)
uint_from-digits max n (String.◌∷◌ c s) m h fits =
    let rest = uint_from-digits max (n * 10 + (code c - 48)) s m in
    elim (Bool-cases (leb 48 (code c) && leb (code c) 57)) [
      | inl numeral ↦ ground (arith, h, rest)
      | inr other ↦ absurd (ground (arith, h))
    ]

uint_from-le : (max n : ℕ) (s : String) → n ≤ max → uint_from max n s ≤ max
unfolding uint_from
uint_from-le max n String.[] small = small
uint_from-le max n (String.◌∷◌ c s) small =
    ground (arith, uint_from-le max (n * 10 + (code c - 48)) s)

-- The port that nclet reports fits into its 16 bits, whatever its address is.
reported_port_lt : (ssh_addr : String) → reported_port ssh_addr < 65536
unfolding reported_port
reported_port_lt ssh_addr = ground (arith, uint_from-le 65535 0 (after_last_colon ssh_addr))

-- Of an address that ends in a colon and a port of 16 bits in decimal digits, with anything before the
-- colon, nclet reports this port.
reported_port-address :
    (host text : String) (port : ℕ)
    → parse_uint 16 text ≡ some port
    → reported_port (concat host (concat ":" text)) ≡ port
unfolding reported_port parse_uint
reported_port-address host text port parsed = elim (Option-cases (digits 0 text)) [
  | inl bad ↦ absurd (ground (arith, parsed))
  | inr (m, good) ↦
      let tail = after_last_colon-concat host text (digits-colon 0 text m good) in
      ground (arith, parsed, tail, uint_from-digits 65535 0 text m good)
]

-- Whoever logs in under an administrator's name is let in exactly with the password that nclet has for
-- administrators. It is the given one; or, where none is given, one of 64 letters and digits; or, where
-- none is given and none can be generated, the empty one.
pub administrator_password :
    {C : Type 0} (k : Client C) (w : World C) (random : ℕ → Option ℕ) (given name password : String)
    (user : User)
    → parse_user name ≡ ok user
    → user.admin ≡ true
    → let chosen = choose_admin_password random given in
      (((handle_password_authentication k chosen name password w).0 ≡ ok tt) ↔ (password ≡ chosen))
      × (((given ≢ "") × (chosen ≡ given))
          ⊎ ((given ≡ "") × (rune_count chosen ≡ 64) × Alphanumeric chosen)
          ⊎ ((given ≡ "")
              × ((e : String) × (generate_password random (pos 64) ≡ err e))
              × (chosen ≡ "")))
unfolding choose_admin_password
administrator_password k w random given name password user parsed admin = (
  handle_password_authentication-admin k (choose_admin_password random given) name password w user
      parsed admin,
  elim (Bool-cases (given == "")) [
    | inr some_given ↦ inl (ne_of_== given "" some_given, ground (arith, some_given))
    | inl none_given ↦
        let empty = (eq_iff given "").0 none_given in
        elim (Result-cases (generate_password random (pos 64))) [
          | inl (text, made) ↦
              let (length, inside) = generate_password_ok random 64 text made in
              let same : choose_admin_password random given ≡ text =
                ground (arith, none_given, made) in
              inr (inl (empty, rw same length, rw same inside))
          | inr (e, failed) ↦ inr (inr (empty, (e, failed), ground (arith, none_given, failed)))
        ]
  ],
)
