-- ===== src/Main/Start/Laws.antt =====
-- Starting, checking and reloading the program of src/main.rs.
use macmapd.Base.{
  ◌≡◌, refl, Bool, true, false, Option, none, some, List, Bytes, ok, err, panic, stuck, ◌>>=◌,
  Result,
}
use macmapd.Base.Ensures.{ok_inj}
use macmapd.Config.{Config}
use macmapd.Main.{ArgsError, parse_args}
use macmapd.Main.Signals.{shutdown, reload}
use macmapd.Main.Start.{
  Filters, Logging, Ended, dhcp, http, synchronizer, signal, Exit, replaced, ran, exit_of,
  reload_process, init_logging, configured, start_with, main,
}

module _ (filters : Filters) (load : Bytes → Option Config) where
  -- What a process that ran tasks had been given.
  record IsRun (replaces : Bool) (ended : Ended) (args : List Bytes) (exit : Exit) : Type 0 where
    path : Bytes
    config : Config
    parsed : parse_args args ≡ ok (some (path, false))
    loaded : load path ≡ some config
    how : exit_of replaces args ended ≡ exit

  configured-IsRun :
      (replaces : Bool) (ended : Ended) (args : List Bytes) (path : Bytes) (check : Bool)
      (o : Option Config) (log : Logging filters.Filter) (exit : Exit)
      → parse_args args ≡ ok (some (path, check))
      → load path ≡ o
      → configured filters load replaces ended args check o ≡ ran log exit
      → IsRun replaces ended args exit
  configured-IsRun replaces ended args path check none log exit p l e = cc
  configured-IsRun replaces ended args path true (some config) log exit p l e = cc
  configured-IsRun replaces ended args path false (some config) log exit p l e = record {
    path = path;
    config = config;
    parsed = p;
    loaded = l;
    how = cc;
  }

  start_with-IsRun :
      (replaces : Bool) (ended : Ended) (args : List Bytes)
      (r : Result ArgsError (Option (Bytes × Bool))) (log : Logging filters.Filter) (exit : Exit)
      → parse_args args ≡ r
      → (r >>= λ parsed. ok (start_with filters load replaces ended args parsed))
        ≡ ok (ran log exit)
      → IsRun replaces ended args exit
  unfolding ◌>>=◌
  start_with-IsRun replaces ended args (ok none) log exit p e = cc
  start_with-IsRun replaces ended args (ok (some (path, check))) log exit p e =
      configured-IsRun replaces ended args path check (load path) log exit p refl (ok_inj e)
  start_with-IsRun replaces ended args (err x) log exit p e = cc
  start_with-IsRun replaces ended args panic log exit p e = cc
  start_with-IsRun replaces ended args stuck log exit p e = cc

  exit_of-replaced :
      (replaces : Bool) (args next : List Bytes) (ended : Ended)
      → exit_of replaces args ended ≡ replaced next
      → (next ≡ args) × (ended ≡ signal (some reload))
  unfolding exit_of reload_process
  exit_of-replaced replaces args next (dhcp fine) e = cc
  exit_of-replaced replaces args next (http fine) e = cc
  exit_of-replaced replaces args next synchronizer e = cc
  exit_of-replaced replaces args next (signal none) e = cc
  exit_of-replaced replaces args next (signal (some shutdown)) e = cc
  exit_of-replaced true args next (signal (some reload)) e = (cc, refl)
  exit_of-replaced false args next (signal (some reload)) e = cc

  -- The program that replaces a process.
  pub record IsReload (args next : List Bytes) (ended : Ended) : Type 0 where
    pub same : next ≡ args
    pub asked : ended ≡ signal (some reload)
    pub config : Config
    pub runs :
        (replaces : Bool) (later : Ended)
        → main filters load replaces later next
          ≡ ok (ran (init_logging filters config) (exit_of replaces next later))

  -- A process is replaced only by a signal to reload, with its own arguments; and the program that
  -- replaces it runs its tasks, however they end: it neither refuses its arguments nor its
  -- configuration, as long as the file is loaded as before.
  pub main-IsReload :
      (replaces : Bool) (ended : Ended) (args next : List Bytes) (log : Logging filters.Filter)
      → main filters load replaces ended args ≡ ok (ran log (replaced next))
      → IsReload args next ended
  unfolding main ◌>>=◌
  main-IsReload replaces ended args next log e =
      let r = start_with-IsRun replaces ended args (parse_args args) log (replaced next) refl e in
      let (same, asked) = exit_of-replaced replaces args next ended r.how in
      record {
        same = same;
        asked = asked;
        config = r.config;
        runs = λ again later. rw (same, r.parsed, r.loaded) refl;
      }
