-- ===== src/DeployLog/Lines.antt =====
-- The lines of a log, from its text to the printed ones.
use netcon_problem_managemen.Prelude.{
  ◌⊎◌, ◌≤◌, String, ◌≡◌, refl, ap, none, some, List, [], ◌∷◌, map, All, In, inl, inr, filter_by,
  leb, arith, Bool, Bool-cases, Option-cases,
}
use netcon_problem_managemen.Strings.{split, join}
use netcon_problem_managemen.Strings.Split.{Free, join-split, split-Free}
use netcon_problem_managemen.DeployLog.{
  LogLevel, log_level_debug, log_level_info, log_level_warning, log_level_error, log_level_panic,
  log_level_fatal, log_level_unknown, level_number, Formats, Colors, DeployLogRecord,
  try_parse_log_line, parse_line, parse_log_level, LogLine, parse, print,
}

module _ {T : Type 0} (formats : Formats T) where
  -- A line with its record: of logfmt with a time, that of its fields; otherwise the line itself.
  abbrev Read : String → DeployLogRecord T → Type 0
  Read text line =
      ((fields : LogLine) × (t : T) × (formats.unmarshal text ≡ some fields)
        × (formats.parse_time fields.time ≡ some t)
        × (line ≡ record {
          timestamp = some t;
          level = parse_log_level fields.level;
          message = fields.msg;
        }))
      ⊎ (((formats.unmarshal text ≡ none)
            ⊎ ((fields : LogLine) × (formats.unmarshal text ≡ some fields)
                × (formats.parse_time fields.time ≡ none)))
          × (line ≡ record { timestamp = none; level = log_level_unknown; message = text }))

  pub AllRead : List String → List (DeployLogRecord T) → Type 0
  AllRead [] [] = Unit
  AllRead [] (line ∷ lines) = ⊥
  AllRead (text ∷ texts) [] = ⊥
  AllRead (text ∷ texts) (line ∷ lines) = Read text line × AllRead texts lines

  parse_line-Read : (text : String) → Read text (parse_line formats text)
  unfolding parse_line try_parse_log_line
  parse_line-Read text = elim (Option-cases (formats.unmarshal text)) [
    | inl bad ↦ inr (inl bad, ground arith)
    | inr (fields, good) ↦ elim (Option-cases (formats.parse_time fields.time)) [
      | inl untimed ↦ inr (inr (fields, good, untimed), ground arith)
      | inr (t, timed) ↦ inl (fields, t, good, timed, ground arith)
    ]
  ]

  all_read : (texts : List String) → AllRead texts (map (parse_line formats) texts)
  unfolding AllRead
  all_read [] = tt
  all_read (text ∷ texts) = (parse_line-Read text, all_read texts)

  -- A log is split into lines that are, joined again, its text, and none of which has a newline in it.
  -- There is one record for each line in their order: of a line of logfmt whose time parses, its time,
  -- level and message; of any other, the line itself with the level `Unknown` and no time.
  pub parse-AllRead :
      (text : String)
      → (lines : List String) × (join "\n" lines ≡ text)
        × All (Free "\n") lines
        × AllRead lines (parse formats text)
  unfolding parse
  parse-AllRead text =
      (split "\n" text, join-split "\n" text, split-Free "\n" text, all_read (split "\n" text))

  abbrev pub shown : LogLevel → DeployLogRecord T → Bool
  shown level line = leb (level_number level) (level_number line.level)

  level_number-bounds : (level : LogLevel) → (1 ≤ level_number level) × (level_number level ≤ 7)
  unfolding level_number
  level_number-bounds log_level_debug = ground arith
  level_number-bounds log_level_info = ground arith
  level_number-bounds log_level_warning = ground arith
  level_number-bounds log_level_error = ground arith
  level_number-bounds log_level_panic = ground arith
  level_number-bounds log_level_fatal = ground arith
  level_number-bounds log_level_unknown = ground arith

  -- Printing from a level on prints, as printing everything does, the records of that level and above,
  -- and no level leaves out a record whose level is unknown.
  print-filter :
      (colors : Colors) (level : LogLevel) (lines : List (DeployLogRecord T))
      → (print formats colors level lines
          ≡ print formats colors log_level_debug (filter_by (shown level) lines))
        × ((line : DeployLogRecord T)
            → In line lines
            → line.level ≡ log_level_unknown
            → In line (filter_by (shown level) lines))
  unfolding print
  print-filter colors level [] = (refl, λ line at unknown. at)
  print-filter colors level (line ∷ lines) =
      let (same, kept) = print-filter colors level lines in
      let all : 1 ≤ level_number line.level = (level_number-bounds line.level).0 in
      let last : level_number log_level_unknown ≡ 7 = unfold level_number in refl in
      let debug : level_number log_level_debug ≡ 1 = unfold level_number in refl in
      elim (Bool-cases (shown level line)) [
        | inl on ↦ (
          ground (arith, all, debug, same),
          λ other at unknown. ground (arith, at, unknown, kept other),
        )
        | inr off ↦ (
          ground (arith, same),
          λ other at unknown. elim at [
            | inr later ↦ ground (arith, kept other later unknown)
            | inl here ↦ absurd (
                ground (
                  arith,
                  ap (λ (r : DeployLogRecord T). level_number r.level) here,
                  ap level_number unknown,
                  last,
                  (level_number-bounds level).1,
                ))
          ],
        )
      ]
