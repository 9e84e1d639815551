-- ===== src/Nclet/Drivers/Files.antt =====
-- drivers/containerlab.go: the helpers on files and on the files of ConfigMaps. Go's pair of a value
-- and an error is a pair; the errors carry the text that the code gives them.
use netcon_problem_managemen.Prelude.{
  String, Bool, true, false, not, ◌==◌, Option, none, some, Result, ok, err, concat, if◌then◌else◌,
}
use netcon_problem_managemen.Api.{FileSource, ProblemEnvironment}
use netcon_problem_managemen.Kube.{ApiError, failed}
use netcon_problem_managemen.Clab.{get_value}
use netcon_problem_managemen.Host.{Host, H, pure, ◌>>=◌}

-- The error that a call answered with, if any.
abbrev pub error_of : {A : Type 0} → Result ApiError A → Option ApiError
error_of (ok a) = none
error_of (err e) = some e

module _ {C : Type 0} (h : Host C) where
  unfoldable pub create_or_update_file : String → String → H C (Bool × Option ApiError)
  create_or_update_file path content =
      let write : H C (Bool × Option ApiError) = (do
        written ← h.write_file path content
        pure (true, error_of written)) in
      (do
        there ← h.stat path
        if there
            then (do
              current ← h.read_file path
              elim current [
                | err e ↦ pure (false, some e)
                | ok text ↦ if text == content then pure (false, none) else write
              ])
            else write)

  unfoldable pub delete_path : String → H C (Bool × Option ApiError)
  delete_path path = do
    there ← h.stat path
    if not there
        then pure (false, none)
        else (do removed ← h.remove_all path; pure (true, error_of removed))

  unfoldable pub fetch_file : ProblemEnvironment → FileSource → H C (Result ApiError String)
  fetch_file pe source = do
    got ← h.get_config_map pe.meta.namespace source.config_map_ref.name
    pure (elim got [
      | err e ↦ err e
      | ok content ↦ elim (get_value source.config_map_ref.key content) [
        | none ↦ err (
            failed
              (concat "ConfigMap found, but key `" (concat source.config_map_ref.key "` missing")))
        | some text ↦ ok text
      ]
    ])
