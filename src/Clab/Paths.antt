-- ===== src/Clab/Paths.antt =====
-- Where the files of an environment are.
use netcon_problem_managemen.Prelude.{sym, arith, String, ◌≡◌, refl, ap, ◌∙◌, [], ◌∷◌}
use netcon_problem_managemen.Api.{ProblemEnvironment}
use netcon_problem_managemen.Strings.{split, join}
use netcon_problem_managemen.Strings.Split.{split-join, Free}
use netcon_problem_managemen.Strings.FilePath.Names.{
  FileName-of, All-Free, FileName, path_join_names,
}
use netcon_problem_managemen.Strings.FilePath.{path_join, dir, base}
use netcon_problem_managemen.Strings.FilePath.Parents.{path_join_below, dir_of_names, base_of_names}
use netcon_problem_managemen.Clab.{new_client, new_client_for, topology_file_path}

data_FileName : FileName "data"
unfolding Free
data_FileName = FileName-of "data" (ground arith) refl refl refl

manifest_FileName : FileName "manifest.yml"
unfolding Free
manifest_FileName = FileName-of "manifest.yml" (ground arith) refl refl refl

pub manifest_path :
    (name : String)
    → FileName name
    → path_join ("data" ∷ name ∷ "manifest.yml" ∷ [])
      ≡ join "/" ("data" ∷ name ∷ "manifest.yml" ∷ [])
manifest_path name h =
    path_join_names "data" (name ∷ "manifest.yml" ∷ [])
      (data_FileName, (h, (manifest_FileName, tt)))

-- The directory of an environment whose name is a file name is `data/NAME`, and its topology file is
-- `data/NAME/manifest.yml`.
pub new_client_for_paths :
    (pe : ProblemEnvironment)
    → FileName pe.meta.name
    → let client = new_client_for pe in
      (client.working_directory_path ≡ join "/" ("data" ∷ pe.meta.name ∷ []))
      × (client.topology_file_name ≡ "manifest.yml")
      × (topology_file_path client ≡ join "/" ("data" ∷ pe.meta.name ∷ "manifest.yml" ∷ []))
unfolding new_client_for new_client topology_file_path
new_client_for_paths pe h =
    let name : String = pe.meta.name in
    let whole : path_join ("data" ∷ name ∷ "manifest.yml" ∷ [])
        ≡ join "/" ("data" ∷ name ∷ "manifest.yml" ∷ []) =
      manifest_path name h in
    let directory : dir (path_join ("data" ∷ name ∷ "manifest.yml" ∷ []))
        ≡ join "/" ("data" ∷ name ∷ []) =
      ap dir whole
      ∙ dir_of_names "data" (name ∷ []) "manifest.yml" (data_FileName, (h, tt)) manifest_FileName in
    let file : base (path_join ("data" ∷ name ∷ "manifest.yml" ∷ [])) ≡ "manifest.yml" =
      ap base whole
      ∙ base_of_names "data" (name ∷ []) "manifest.yml" (data_FileName, (h, tt))
          manifest_FileName in
    (
      directory,
      file,
      (λ i. path_join (directory i ∷ file i ∷ []))
          ∙ path_join_below "data" (name ∷ []) "manifest.yml" (data_FileName, (h, tt))
              manifest_FileName,
    )

-- The directories of two environments are the same only if their names are. Both names are plain
-- file names.
directory-injective :
    (a b : ProblemEnvironment)
    → FileName a.meta.name
    → FileName b.meta.name
    → (new_client_for a).working_directory_path ≡ (new_client_for b).working_directory_path
    → a.meta.name ≡ b.meta.name
directory-injective a b ha hb same =
    let parts : "data" ∷ a.meta.name ∷ [] ≡ "data" ∷ b.meta.name ∷ [] =
      sym (
        split-join "/" "data" (a.meta.name ∷ [])
          (All-Free ("data" ∷ a.meta.name ∷ []) (data_FileName, (ha, tt))))
      ∙ ap (split "/") (sym (new_client_for_paths a ha).0 ∙ same ∙ (new_client_for_paths b hb).0)
      ∙ split-join "/" "data" (b.meta.name ∷ [])
          (All-Free ("data" ∷ b.meta.name ∷ []) (data_FileName, (hb, tt))) in
    ground (arith, parts)
