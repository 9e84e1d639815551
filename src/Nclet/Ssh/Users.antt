-- ===== src/Nclet/Ssh/Users.antt =====
-- `parseUser` against the formats that its comment lists.
use netcon_problem_managemen.Prelude.{
  String, ◌≡◌, ap, sym, ◌∙◌, ◌⊎◌, inl, inr, ◌↔◌, Bool, true, false, List, [], ◌∷◌, eq_iff, arith,
  concat, All, ok, if◌then◌else◌,
}
use netcon_problem_managemen.Nclet.Ssh.{User, user_of, parse_parts, parse_user}
use netcon_problem_managemen.Strings.{split, join}
use netcon_problem_managemen.Strings.Split.{
  Free, join-split, split-Free, split_trivial, split-concat,
}

-- A text without an underscore.
abbrev pub Plain : String → Type 0
Plain = Free "_"

abbrev pub kind_of : Bool → String
kind_of admin = if admin then "ncadmin" else "nc"

-- `nc_NAME` or `ncadmin_NAME`, with `_NODE` or without, where no part has an underscore.
abbrev pub Formatted : String → User → Type 0
Formatted text user =
    ((user.node_name ≡ "")
      × Plain user.problem_environment_name
      × (text ≡ concat (kind_of user.admin) (concat "_" user.problem_environment_name)))
    ⊎ (Plain user.problem_environment_name
        × Plain user.node_name
        × (text
            ≡ concat (kind_of user.admin)
                (concat "_" (concat user.problem_environment_name (concat "_" user.node_name)))))

user_of-kind :
    (kind name node : String) (user : User)
    → user_of kind name node ≡ ok user
    → (kind ≡ kind_of user.admin) × (name ≡ user.problem_environment_name) × (node ≡ user.node_name)
unfolding user_of
user_of-kind kind name node user h = ground (arith, eq_iff kind "nc", eq_iff kind "ncadmin")

parts-Formatted :
    (parts : List String) (user : User)
    → parse_parts parts ≡ ok user
    → All Plain parts
    → Formatted (join "_" parts) user
unfolding parse_parts join
parts-Formatted [] user h hs = absurd (ground arith)
parts-Formatted (kind ∷ []) user h hs = absurd (ground arith)
parts-Formatted (kind ∷ name ∷ []) user h hs =
    inl (ground (arith, user_of-kind kind name "" user h))
parts-Formatted (kind ∷ name ∷ node ∷ []) user h hs =
    inr (ground (arith, user_of-kind kind name node user h))
parts-Formatted (kind ∷ name ∷ node ∷ more ∷ parts) user h hs = absurd (ground arith)

kind_of-Plain : (admin : Bool) → Plain (kind_of admin)
unfolding Free
kind_of-Plain true = ground arith
kind_of-Plain false = ground arith

user_of-kind_of :
    (admin : Bool) (name node : String)
    → user_of (kind_of admin) name node
      ≡ ok (record { problem_environment_name = name; node_name = node; admin = admin })
unfolding user_of
user_of-kind_of true name node = ground arith
user_of-kind_of false name node = ground arith

split-two : (a b : String) → Plain a → Plain b → split "_" (concat a (concat "_" b)) ≡ a ∷ b ∷ []
split-two a b ha hb = split-concat "_" a b ha ∙ ap (λ ps. a ∷ ps) (split_trivial "_" b hb)

-- A user name parses exactly if it has one of the four formats, to the user that it names. A format
-- with an empty node name, after an underscore, is read like the one without.
pub parse_user_iff :
    (text : String) (user : User) → (parse_user text ≡ ok user) ↔ Formatted text user
unfolding parse_user parse_parts
parse_user_iff text user = (
  λ h.
      rw (sym (join-split "_" text))
        (parts-Formatted (split "_" text) user h (split-Free "_" text)),
  λ f. elim f [
    | inl (no_node, name, e) ↦ rw e (
        rw
          (split-two (kind_of user.admin) user.problem_environment_name (kind_of-Plain user.admin)
            name)
          (ap (user_of (kind_of user.admin) user.problem_environment_name) (sym no_node)
            ∙ user_of-kind_of user.admin user.problem_environment_name user.node_name))
    | inr (name, node, e) ↦ rw e (
        rw
          (split-concat "_" (kind_of user.admin)
            (concat user.problem_environment_name (concat "_" user.node_name))
            (kind_of-Plain user.admin))
          (rw (split-two user.problem_environment_name user.node_name name node)
            (user_of-kind_of user.admin user.problem_environment_name user.node_name)))
  ],
)
