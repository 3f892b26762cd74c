-- ===== src/Maintenance.antt =====
-- checks/maintenance/check.go: the check that is failing while a file exists, and the directive in the
-- file that disables notifications. The content of the file is taken as valid UTF-8.
pub mod Directive
pub mod Runs
use Prim.Native.Char.{Char, code}
use health_go.Base.{
  String, Bool, true, false, not, ◌&&◌, ◌||◌, Option, none, some, ℕ, zero, suc, ◌+◌, ◌-◌, ◌*◌, ◌%◌,
  ◌==◌, leb, eqb, if◌then◌else◌,
}
use health_go.Base.Int.{wrap_int64, ℤ, pos, negsuc, max_int}
use health_go.Base.Text.{strip_prefix}
use health_go.Types.{Error, Time, second}
use health_go.Notifications.{Notifications, disable, enable, enabled}
use health_go.Check.{CheckResponse}

-- `unicode.IsSpace`
unfoldable pub is_space : Char → Bool
is_space c =
    let n = code c in
    (leb 9 n && leb n 13)
    || eqb n 32
    || eqb n 133
    || eqb n 160
    || eqb n 5760
    || (leb 8192 n && leb n 8202)
    || eqb n 8232
    || eqb n 8233
    || eqb n 8239
    || eqb n 8287
    || eqb n 12288

abbrev trim_left : String → String
trim_left String.[] = String.[]
trim_left (String.◌∷◌ c s) = let rest = trim_left s in if is_space c then rest else String.◌∷◌ c s

abbrev trim_right : String → String
trim_right String.[] = String.[]
trim_right (String.◌∷◌ c s) =
    let rest = trim_right s in if rest == "" && is_space c then String.[] else String.◌∷◌ c rest

-- `strings.TrimSpace`
unfoldable pub trim_space : String → String
trim_space s = trim_right (trim_left s)

-- what comes after the first occurrence: the second result of `strings.Cut`
unfoldable pub cut_after : String → String → Option String
cut_after sep String.[] = strip_prefix sep String.[]
cut_after sep (String.◌∷◌ c s) =
    let rest = cut_after sep s in
    elim (strip_prefix sep (String.◌∷◌ c s)) [ none ↦ rest | some after ↦ some after ]

abbrev pub is_digit : Char → Bool
is_digit c = leb 48 (code c) && leb (code c) 57

-- `numStr[:endIdx]`
unfoldable pub digit_prefix : String → String
digit_prefix String.[] = String.[]
digit_prefix (String.◌∷◌ c s) =
    let rest = digit_prefix s in if is_digit c then String.◌∷◌ c rest else String.[]

-- the number that decimal digits stand for, after `acc`
unfoldable pub decimal_value : ℕ → String → ℕ
decimal_value acc String.[] = acc
decimal_value acc (String.◌∷◌ c s) = decimal_value (acc * 10 + (code c - 48)) s

-- `strconv.Atoi` of at least one digit: an error if the number is no `int`
unfoldable pub atoi : String → Option ℕ
atoi s = let n = decimal_value 0 s in if leb n max_int then some n else none

abbrev pub directive : String
directive = "HEALTH_GO_DISABLE_NOTIFICATIONS"

-- what follows the directive: the duration, where 0 is for ever
unfoldable pub suffix_duration : String → ℤ
suffix_duration String.[] = pos 0
suffix_duration (String.◌∷◌ c num_str) =
    let digits = digit_prefix num_str in
    if eqb (code c) 95 && not (digits == "")
    then elim (atoi digits) [ none ↦ pos 0 | some seconds ↦ wrap_int64 (seconds * second) ]
    else pos 0

-- none if there is no directive
unfoldable pub parse_notification_disable : String → Option ℤ
parse_notification_disable message = elim (cut_after directive message) [
  | none ↦ none
  | some remaining ↦ some (suffix_duration remaining)
]

-- what `os.Stat` finds, and then `os.ReadFile` if the file exists
pub data File : Type 0 where
  missing : File
  inaccessible : String → File
  present : Option String → File

abbrev pub default_message : String
default_message = "maintenance mode enabled"

unfoldable pub file_message : Option String → String
file_message none = default_message
file_message (some content) = if not (content == "") then trim_space content else default_message

-- `n` is the sender of `config.Health`
unfoldable pub apply_directive : Time → String → Notifications → Notifications
apply_directive now message n = elim (parse_notification_disable message) [
  | none ↦ n
  | some duration ↦ if enabled n then disable now duration n else n
]

unfoldable pub read_directive : Time → Option String → Option Notifications → Option Notifications
unfolding apply_directive file_message
read_directive now (some content) (some n) =
    if not (content == "") then some (apply_directive now (trim_space content) n) else some n
read_directive now none h = h
read_directive now (some content) none = none

-- one run of the check that `New` returns; none for the health container is nil
unfoldable pub maintenance_check :
    Time → File → Option Notifications → CheckResponse × Option Notifications
unfolding read_directive file_message
maintenance_check now missing none =
    (record { error = none; is_warning = false; no_notification = false }, none)
maintenance_check now missing (some n) =
    let back = not (enabled n) in
    (
      record { error = none; is_warning = false; no_notification = back },
      some (if back then enable n else n),
    )
maintenance_check now (inaccessible e) h =
    (record { error = some e; is_warning = false; no_notification = false }, h)
maintenance_check now (present content) h = (
  record { error = some (file_message content); is_warning = true; no_notification = false },
  read_directive now content h,
)
