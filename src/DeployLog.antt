-- ===== src/DeployLog.antt =====
-- pkg/kubectl-netcon/deploylog: the log of a deployment, as the plugin parses and prints it. logfmt, the
-- parsing and the formatting of times in a location, and the colours of the terminal are parameters.
pub mod Lines
mod Examples
use Prim.Native.Char.{Char, code}
use Prim.Native.String
use netcon_problem_managemen.Prelude.{
  ℕ, String, Option, none, some, List, [], ◌∷◌, ◌==◌, eqb, ltb, map, concat, if◌then◌else◌,
}
use netcon_problem_managemen.Strings.{split}

pub data LogLevel : Type 0 where
  log_level_debug log_level_info log_level_warning log_level_error log_level_panic log_level_fatal
        log_level_unknown :
      LogLevel

-- The number of a level: `iota + 1`.
pub level_number : LogLevel → ℕ
level_number log_level_debug = 1
level_number log_level_info = 2
level_number log_level_warning = 3
level_number log_level_error = 4
level_number log_level_panic = 5
level_number log_level_fatal = 6
level_number log_level_unknown = 7

pub record LogLine : Type 0 where
  pub time : String
  pub level : String
  pub msg : String

-- `logfmt.Unmarshal`, `time.Parse(time.RFC3339, _)`, and the format of a time in the location of the
-- printer.
pub record Formats (T : Type 0) : Type 0 where
  pub unmarshal : String → Option LogLine
  pub parse_time : String → Option T
  pub format_time : T → String

pub record Colors : Type 0 where
  pub black : String → String
  pub plain : String → String
  pub blue : String → String
  pub green : String → String
  pub yellow : String → String
  pub red : String → String
  pub hi_red : String → String

pub record DeployLogRecord (T : Type 0) : Type 0 where
  pub timestamp : Option T
  pub level : LogLevel
  pub message : String

pub parse_log_level : String → LogLevel
parse_log_level level =
    if level == "debug"
    then log_level_debug
    else if level == "info"
    then log_level_info
    else if level == "warning"
    then log_level_warning
    else if level == "error"
    then log_level_error
    else if level == "panic"
    then log_level_panic
    else if level == "fatal"
    then log_level_fatal
    else log_level_unknown

format_log_level : Colors → LogLevel → String
format_log_level colors log_level_debug = colors.blue "DEBUG"
format_log_level colors log_level_info = colors.green " INFO"
format_log_level colors log_level_warning = colors.yellow " WARN"
format_log_level colors log_level_error = colors.red "ERROR"
format_log_level colors log_level_panic = colors.red "PANIC"
format_log_level colors log_level_fatal = colors.hi_red "FATAL"
format_log_level colors log_level_unknown = "     "

-- `strings.ReplaceAll(message, "\n", "\n" + strings.Repeat(" ", 33))`
indent : String → String
indent String.[] = ""
indent (String.◌∷◌ c s) =
    let rest = indent s in
    if eqb (code c) b'\n'
    then String.◌∷◌ c (concat "                                 " rest)
    else String.◌∷◌ c rest

module _ {T : Type 0} (formats : Formats T) where
  pub try_parse_log_line : String → Option (DeployLogRecord T)
  try_parse_log_line data_ = elim (formats.unmarshal data_) [
    | none ↦ none
    | some fields ↦ elim (formats.parse_time fields.time) [
      | none ↦ none
      | some t ↦ some (record {
        timestamp = some t;
        level = parse_log_level fields.level;
        message = fields.msg;
      })
    ]
  ]

  -- The body of the loop over the lines.
  pub parse_line : String → DeployLogRecord T
  parse_line text = elim (try_parse_log_line text) [
    | some parsed ↦ parsed
    | none ↦ record { timestamp = none; level = log_level_unknown; message = text }
  ]

  pub parse : String → List (DeployLogRecord T)
  parse data_ = map parse_line (split "\n" data_)

  print_record : Colors → DeployLogRecord T → String
  print_record colors line =
      let timestamp : String = elim line.timestamp [
        | none ↦ "                         "
        | some t ↦ formats.format_time t
      ] in
      concat (colors.black timestamp) (
        concat "  " (
          concat (format_log_level colors line.level)
            (concat " " (concat (colors.plain (indent line.message)) "\n"))))

  -- What Print writes.
  pub print : Colors → LogLevel → List (DeployLogRecord T) → String
  print colors level [] = ""
  print colors level (line ∷ lines) =
      let rest = print colors level lines in
      if ltb (level_number line.level) (level_number level)
      then rest
      else concat (print_record colors line) rest
