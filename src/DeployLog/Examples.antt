-- ===== src/DeployLog/Examples.antt =====
-- A log with one line that parses.
use netcon_problem_managemen.Prelude.{String, ◌≡◌, none, some, List, All, ◌==◌, if◌then◌else◌}
use netcon_problem_managemen.Strings.{join}
use netcon_problem_managemen.Strings.Split.{Free}
use netcon_problem_managemen.DeployLog.{Formats, Colors, parse}
use netcon_problem_managemen.DeployLog.Lines.{AllRead, parse-AllRead}

abbrev formats : Formats String
formats = record {
  unmarshal = λ text.
      if text == "level=error"
      then some (record { time = "t0"; level = "error"; msg = "failed" })
      else none;
  parse_time = λ text. some text;
  format_time = λ t. t;
}

abbrev colorless : Colors
colorless = record {
  black = λ s. s;
  plain = λ s. s;
  blue = λ s. s;
  green = λ s. s;
  yellow = λ s. s;
  red = λ s. s;
  hi_red = λ s. s;
}

parse-AllRead_example :
    (lines : List String) × (join "\n" lines ≡ "level=error\npulling")
    × All (Free "\n") lines
    × AllRead formats lines (parse formats "level=error\npulling")
parse-AllRead_example = parse-AllRead formats "level=error\npulling"
