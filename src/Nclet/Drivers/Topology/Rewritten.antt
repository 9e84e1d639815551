-- ===== src/Nclet/Drivers/Topology/Rewritten.antt =====
-- What the rewriting makes of a topology, and where the paths in it lead.
use netcon_problem_managemen.Prelude.{
  All, ◌++◌, ◌==◌, eq_iff, ne_of_==, String, ◌≡◌, ◌≢◌, ◌⊎◌, ap, sym, ◌∙◌, refl, Option, none, some,
  List, [], ◌∷◌, map, ok, concat, arith, Bool-cases, Result-cases, inl, inr,
}
use netcon_problem_managemen.Strings.FilePath.Names.{FileName}
use netcon_problem_managemen.Strings.FilePath.Rooted.{absolute, path_join_rooted}
use netcon_problem_managemen.Clab.{Config, NodeDefinition}
use netcon_problem_managemen.Api.{ProblemEnvironment}
use netcon_problem_managemen.Strings.{split, join}
use netcon_problem_managemen.Strings.Split.{
  Free, split-concat, join-split, split_some, split_trivial,
}
use netcon_problem_managemen.Strings.FilePath.{path_join}
use netcon_problem_managemen.Nclet.Drivers.Topology.{
  rewrite_config, rewrite_bind, rewrite_node, rewrite_nodes,
}

rewrite_bind_source :
    (directory source rest : String)
    → Free ":" source
    → rewrite_bind directory (concat source (concat ":" rest))
      ≡ concat (path_join (directory ∷ source ∷ [])) (concat ":" rest)
unfolding rewrite_bind join
rewrite_bind_source directory source rest h =
    let parts : split ":" (concat source (concat ":" rest)) ≡ source ∷ split ":" rest =
      split-concat ":" source rest h in
    let (part, more, e) = split_some ":" rest in
    ap
      (λ (ps : List String). elim ps as (λ _. String) [
        | [] ↦ ""
        | source ∷ rest ↦ join ":" (path_join (directory ∷ source ∷ []) ∷ rest)
      ])
      (parts ∙ ap (λ ps. source ∷ ps) e)
    ∙ ap (λ t. concat (path_join (directory ∷ source ∷ [])) (concat ":" t))
        (ap (join ":") (sym e) ∙ join-split ":" rest)

rewrite_bind_plain :
    (directory bind : String)
    → Free ":" bind
    → rewrite_bind directory bind ≡ path_join (directory ∷ bind ∷ [])
unfolding rewrite_bind join
rewrite_bind_plain directory bind h =
    ap
      (λ (ps : List String). elim ps as (λ _. String) [
        | [] ↦ ""
        | source ∷ rest ↦ join ":" (path_join (directory ∷ source ∷ []) ∷ rest)
      ])
      (split_trivial ":" bind h)

-- The file of a startup configuration, looked for in the directory; none stays none.
abbrev Moved : String → String → String → Type 0
Moved directory file file' =
    ((file ≡ "") × (file' ≡ "")) ⊎ ((file ≢ "") × (file' ≡ path_join (directory ∷ file ∷ [])))

-- Binds, each with its part up to the first colon looked for in the directory, and the rest kept.
pub AllBound : String → List String → List String → Type 0
AllBound directory [] [] = Unit
AllBound directory [] (bind' ∷ binds') = ⊥
AllBound directory (bind ∷ binds) [] = ⊥
AllBound directory (bind ∷ binds) (bind' ∷ binds') =
    (Free ":" bind → bind' ≡ path_join (directory ∷ bind ∷ []))
    × ((source rest : String)
        → Free ":" source
        → bind ≡ concat source (concat ":" rest)
        → bind' ≡ concat (path_join (directory ∷ source ∷ [])) (concat ":" rest))
    × AllBound directory binds binds'

-- A node with its files in the directory: the startup configuration below the directory itself, the
-- binds below the startup configuration, and everything else as it was.
pub record Placed (directory : String) (given placed : NodeDefinition) : Type 0 where
  pub startup : Moved directory given.startup_config placed.startup_config
  pub bound : AllBound placed.startup_config given.binds placed.binds
  pub kept : placed ≡ record given { startup_config = placed.startup_config; binds = placed.binds }

-- Nodes of the same names in the same order, all with a definition, and each placed.
pub AllPlaced :
    String → List (String × Option NodeDefinition) → List (String × Option NodeDefinition) → Type 0
AllPlaced directory [] [] = Unit
AllPlaced directory ((name, some given) ∷ nodes) ((name', some placed) ∷ nodes') =
    (name' ≡ name) × Placed directory given placed × AllPlaced directory nodes nodes'
AllPlaced directory _ _ = ⊥

all_bound :
    (directory : String) (binds : List String)
    → AllBound directory binds (map (rewrite_bind directory) binds)
unfolding AllBound
all_bound directory [] = tt
all_bound directory (bind ∷ binds) = (
  λ plain. rewrite_bind_plain directory bind plain,
  λ source rest free same.
      ap (rewrite_bind directory) same ∙ rewrite_bind_source directory source rest free,
  all_bound directory binds,
)

rewrite_node-Placed :
    (directory : String) (node : NodeDefinition)
    → Placed directory node (rewrite_node directory node)
unfolding rewrite_node
rewrite_node-Placed directory node = record {
  startup = elim (Bool-cases (node.startup_config == "")) [
    | inl empty ↦ inl (
      ground (arith, eq_iff node.startup_config ""),
      ground (arith, eq_iff node.startup_config ""),
    )
    | inr file ↦ inr (ne_of_== node.startup_config "" file, ground arith)
  ];
  bound = all_bound (rewrite_node directory node).startup_config node.binds;
  kept = refl;
}

rewrite_nodes-AllPlaced :
    (directory : String) (nodes nodes' : List (String × Option NodeDefinition))
    → rewrite_nodes directory nodes ≡ ok nodes'
    → AllPlaced directory nodes nodes'
unfolding rewrite_nodes AllPlaced
rewrite_nodes-AllPlaced directory [] nodes' done =
    let same : nodes' ≡ [] = ground arith in rw same tt
rewrite_nodes-AllPlaced directory ((name, none) ∷ nodes) nodes' done = absurd (ground arith)
rewrite_nodes-AllPlaced directory ((name, some node) ∷ nodes) nodes' done =
    elim (Result-cases (rewrite_nodes directory nodes)) [
      | inr (e, bad) ↦ absurd (ground arith)
      | inl (rewritten, good) ↦
          let same : nodes' ≡ (name, some (rewrite_node directory node)) ∷ rewritten =
            ground arith in
          rw same (
            refl,
            rewrite_node-Placed directory node,
            rewrite_nodes-AllPlaced directory nodes rewritten good,
          )
    ]

-- Of a configuration that is rewritten, every node has a definition, and the result has the name of
-- the environment, no prefix and the management network `nc-mgmt`. Its nodes are the given ones in
-- their order. Of each, a startup configuration is looked for in the directory of the environment,
-- which is below the configured one; of each bind, the part up to the first colon is looked for below
-- the path of the startup configuration; and the rest is as it was. The configured directory is a path
-- of plain names from the root, and the name of the environment is a plain name.
pub rewrite_config_ok :
    (first : String) (names : List String) (pe : ProblemEnvironment) (config config' : Config)
    → All FileName (first ∷ names)
    → FileName pe.meta.name
    → rewrite_config (absolute (first ∷ names)) pe config ≡ ok config'
    → (config'.name ≡ pe.meta.name)
      × (config'.prefix ≡ none)
      × (config'.mgmt ≡ some (record { network = "nc-mgmt"; other = "" }))
      × (config'.topology.other ≡ config.topology.other)
      × AllPlaced
          (absolute ((first ∷ names) ++ pe.meta.name ∷ []))
          config.topology.nodes
          config'.topology.nodes
unfolding rewrite_config
rewrite_config_ok first names pe config config' plain named done =
    let prefix : String = path_join (absolute (first ∷ names) ∷ pe.meta.name ∷ []) in
    elim (Result-cases (rewrite_nodes prefix config.topology.nodes)) [
      | inr (e, bad) ↦ absurd (ground arith)
      | inl (nodes, good) ↦
          let result : config' ≡ record config {
            prefix = none;
            name = pe.meta.name;
            mgmt = some (record { network = "nc-mgmt"; other = "" });
            topology = record config.topology { nodes = nodes };
          } =
            ground arith in
          let placed : AllPlaced prefix config.topology.nodes nodes =
            rewrite_nodes-AllPlaced prefix config.topology.nodes nodes good in
          rw result (
            refl,
            refl,
            refl,
            refl,
            rw (← path_join_rooted first names pe.meta.name plain named) placed,
          )
    ]
