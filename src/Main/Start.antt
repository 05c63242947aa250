-- ===== src/Main/Start.antt =====
-- `main` of src/main.rs, with `init_logging` and `logging_filter`. The argument list, what
-- `Config::load` makes of a path, and which of the tasks of `select!` ends first, are arguments;
-- `EnvFilter` of the tracing_subscriber crate is a parameter. The texts that are printed are left
-- out.
pub mod Laws
use macmapd.Base.{
  Bool, true, false, Option, none, some, List, [], ◌∷◌, Bytes, ascii, if◌then◌else◌, Result, ok,
  ◌>>=◌,
}
use macmapd.Config.{Config, LoggingConfig, LogFormat, json, text}
use macmapd.Main.{ArgsError, parse_args}
use macmapd.Main.Signals.{Signal, shutdown, reload}

-- The `EnvFilter` of the crate.
pub record Filters : Type 1 where
  pub Filter : Type 0
  pub new : Bytes → Filter
  pub add_directive : Filter → Bytes → Filter

-- How the log is written. No colors are asked for in the JSON format.
pub record Logging (F : Type 0) : Type 0 where
  pub json : Bool
  pub time : Bool
  pub ansi : Option Bool
  pub filter : F

unfoldable pub logging_filter : (filters : Filters) → LoggingConfig → filters.Filter
logging_filter filters logging =
    let filter = filters.new logging.level in
    if logging.dhcp_packet_debug
    then filters.add_directive filter (ascii "macdack::dhcp=debug")
    else filter

abbrev pub log_as : {F : Type 0} → F → LogFormat → Bool → Bool → Logging F
log_as filter json true color = record { json = true; time = false; ansi = none; filter = filter }
log_as filter json false color = record { json = true; time = true; ansi = none; filter = filter }
log_as filter text true color = record {
  json = false;
  time = false;
  ansi = some color;
  filter = filter;
}
log_as filter text false color = record {
  json = false;
  time = true;
  ansi = some color;
  filter = filter;
}

unfoldable pub init_logging : (filters : Filters) → Config → Logging filters.Filter
unfolding logging_filter
init_logging filters config =
    let logging = config.logging in
    log_as (logging_filter filters logging) logging.format logging.disable_timestamp logging.color

-- Which task ends first: a server, with or without an error; the synchronizer; or
-- `shutdown_or_reload`, with a signal or an error.
pub data Ended : Type 0 where
  dhcp http : Bool → Ended
  synchronizer : Ended
  signal : Option Signal → Ended

-- How the process ends: by itself, well or with an error, or replaced by the program with these
-- arguments.
pub data Exit : Type 0 where
  stopped : Bool → Exit
  replaced : List Bytes → Exit

pub data MainOutcome (F : Type 0) : Type 0 where
  printed bad_config : MainOutcome F
  checked : Logging F → MainOutcome F
  ran : Logging F → Exit → MainOutcome F

-- `exec` comes back only if it fails.
unfoldable pub reload_process : Bool → List Bytes → Exit
reload_process replaces args = if replaces then replaced args else stopped false

unfoldable pub exit_of : Bool → List Bytes → Ended → Exit
unfolding reload_process
exit_of replaces args (dhcp fine) = stopped fine
exit_of replaces args (http fine) = stopped fine
exit_of replaces args synchronizer = stopped false
exit_of replaces args (signal none) = stopped false
exit_of replaces args (signal (some shutdown)) = stopped true
exit_of replaces args (signal (some reload)) = reload_process replaces args

module _ (filters : Filters) (load : Bytes → Option Config) (replaces : Bool) (ended : Ended) where
  abbrev pub configured : List Bytes → Bool → Option Config → MainOutcome filters.Filter
  configured args check none = bad_config
  configured args check (some config) =
      if check
      then checked (init_logging filters config)
      else ran (init_logging filters config) (exit_of replaces args ended)

  abbrev pub start_with : List Bytes → Option (Bytes × Bool) → MainOutcome filters.Filter
  start_with args none = printed
  start_with args (some (path, check)) = configured args check (load path)

  unfoldable pub main : List Bytes → Result ArgsError (MainOutcome filters.Filter)
  unfolding init_logging exit_of
  main args = do parsed ← parse_args args; ok (start_with args parsed)
