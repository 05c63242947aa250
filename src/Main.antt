-- ===== src/Main.antt =====
-- `parse_args` of src/main.rs. An argument is the list of its bytes; the texts that `--version` and
-- `--help` print are left out.
pub mod Commands
pub mod Signals
pub mod Start
use macmapd.Base.{
  Bool, true, false, Option, none, some, List, [], ◌∷◌, Bytes, ascii, bytes_eq, ◌||◌, if◌then◌else◌,
  Result, ok, err,
}
use macmapd.Text.Utf8.{from_utf8}

pub data ArgsError : Type 0 where
  not_utf8 missing_path : ArgsError
  unknown_argument : Bytes → ArgsError

abbrev pub default_path : Bytes
default_path = ascii "/etc/macdack/config.toml"

-- One argument: what it asks for.
pub data Word : Type 0 where
  check_config config leave other : Word

unfoldable pub word_of : Bytes → Word
word_of text =
    if bytes_eq text (ascii "check-config")
    then check_config
    else if bytes_eq text (ascii "--config")
    then config
    else if bytes_eq text (ascii "--version")
        || bytes_eq text (ascii "-V")
        || (bytes_eq text (ascii "--help") || bytes_eq text (ascii "-h"))
    then leave
    else other

abbrev pub classify : Option Bytes → Option Word
classify none = none
classify (some text) = some (word_of text)

abbrev pub Parsed : Type 0
Parsed = Result ArgsError (Option (Bytes × Bool))

-- The last argument.
abbrev pub parse_last : Bytes → Bool → Bytes → Option Word → Parsed
parse_last path check arg none = err not_utf8
parse_last path check arg (some check_config) = ok (some (path, true))
parse_last path check arg (some config) = err missing_path
parse_last path check arg (some leave) = ok none
parse_last path check arg (some other) = err (unknown_argument arg)

-- The loop, on the rest of the arguments; `some` is a path, and whether only to check it.
unfoldable pub parse_from : Bytes → Bool → List Bytes → Parsed
parse_from path check [] = ok (some (path, check))
parse_from path check (arg ∷ []) = parse_last path check arg (classify (from_utf8 arg))
parse_from path check (arg ∷ next ∷ args) = elim (classify (from_utf8 arg)) [
  | none ↦ err not_utf8
  | some check_config ↦ parse_from path true (next ∷ args)
  | some config ↦ parse_from next check args
  | some leave ↦ ok none
  | some other ↦ err (unknown_argument arg)
]

unfoldable pub parse_args : List Bytes → Parsed
unfolding parse_from
parse_args args = parse_from default_path false args
