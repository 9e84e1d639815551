-- ===== src/AccessHelper/Shells/Parameters.antt =====
-- What the SSH session on a node is opened with.
use netcon_problem_managemen.Prelude.{
  ℕ, ◌<◌, String, Bool, ◌≡◌, ◌⊎◌, inl, inr, none, some, arith, Option-cases, ok,
}
use netcon_problem_managemen.Clab.{NodeDefinition, get_value}
use netcon_problem_managemen.Strings.Decimal.{parse_uint}
use netcon_problem_managemen.Strings.Decimal.Digits.{parse_uint_lt}
use netcon_problem_managemen.AccessHelper.Shells.{load_parameters}

-- The port of an SSH session on a node is below 65536; it is 22 if the node has no label
-- netcon.janog.gr.jp/sshPort, and else the number that this label writes in decimal digits: no other
-- label is read for it.
pub load_parameters_port :
    (definition : NodeDefinition) (is_admin : Bool) (username password : String) (port : ℕ)
    → load_parameters definition is_admin ≡ ok (username, password, port)
    → (port < 65536)
      × (((get_value "netcon.janog.gr.jp/sshPort" definition.labels ≡ none) × (port ≡ 22))
          ⊎ ((text : String) × (get_value "netcon.janog.gr.jp/sshPort" definition.labels
                ≡ some text)
              × (parse_uint 16 text ≡ some port)))
unfolding load_parameters
load_parameters_port definition is_admin username password port done =
    elim (Option-cases (get_value "netcon.janog.gr.jp/sshPort" definition.labels)) [
      | inl unset ↦ let same : port ≡ 22 = ground arith in (ground arith, inl (unset, same))
      | inr (text, set) ↦ elim (Option-cases (parse_uint 16 text)) [
        | inl bad ↦ absurd (ground arith)
        | inr (given, good) ↦
            let same : port ≡ given = ground arith in
            (ground (arith, parse_uint_lt 16 text given good), inr (text, set, ground arith))
      ]
    ]
