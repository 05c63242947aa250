-- ===== src/Tests/Process.antt =====
-- The theorems on the loop of the server, on signals and on the metrics, at concrete events.
use macmapd.Base.{◌≡◌, ◌↔◌, refl, true, false, Option, some, List, [], ◌∷◌, Bytes, ok, ◌>>=◌}
use macmapd.Base.Yields.{Yields}
use macmapd.Config.{Config}
use macmapd.Runtime.{Shared, new_shared}
use macmapd.Runtime.Sync.{load, not_found, no_cache}
use macmapd.Runtime.Reachable.{started}
use macmapd.Server.{explicit}
use macmapd.Server.Loop.{Arrival, broken, arrived, serve_loop, Socket, serve, ready}
use macmapd.Server.Loop.Runs.{IsLoop, serve-IsLoop}
use macmapd.Main.{parse_args, parse_from}
use macmapd.Main.Signals.{
  Event, hung_up, terminated, signalled, reload, shutdown_or_reload, IsReload,
  shutdown_or_reload_iff,
}
use macmapd.Main.Start.{Filters, Ended, replaced, ran, main, init_logging, exit_of, reload_process}
use macmapd.Main.Start.Laws.{main-IsReload}
use macmapd.Main.Start.Laws as Laws
use macmapd.Tests.Samples.{sample_config, server_ip}
use macmapd.Tests.Table.{read_two}
use macmapd.Tests.Wire.{datagram}

abbrev arrivals : List Arrival
arrivals = arrived 9 true server_ip datagram ∷ arrived 10 true server_ip (1 ∷ []) ∷ broken ∷ []

abbrev loaded : Shared
loaded = load read_two not_found new_shared

abbrev open_socket : Socket
open_socket = record { bound = true; broadcast = true; enabled = false; named = true }

serve-IsLoop_example :
    Yields
      (IsLoop read_two sample_config arrivals (ready loaded) no_cache)
      (serve_loop sample_config arrivals (ready loaded))
unfolding serve explicit
serve-IsLoop_example =
    serve-IsLoop read_two sample_config open_socket arrivals loaded no_cache
      (serve_loop sample_config arrivals (ready loaded)) (started not_found) refl

abbrev events : List Event
events = hung_up false ∷ hung_up true ∷ terminated ∷ []

shutdown_or_reload_iff_example :
    (shutdown_or_reload true events ≡ signalled reload) ↔ IsReload events
shutdown_or_reload_iff_example = shutdown_or_reload_iff events

-- A filter is the list of its directives.
abbrev lists : Filters
lists = record {
  Filter = List Bytes;
  new = λ level. level ∷ [];
  add_directive = λ filter directive. directive ∷ filter;
}

abbrev load_any : Bytes → Option Config
load_any path = some sample_config

reloads :
    main lists load_any true (Ended.signal (some reload)) []
    ≡ ok (ran (init_logging lists sample_config) (replaced []))
unfolding main ◌>>=◌ parse_args parse_from exit_of reload_process
reloads = refl

main-IsReload_example : Laws.IsReload lists load_any [] [] (Ended.signal (some reload))
main-IsReload_example =
    main-IsReload lists load_any true (Ended.signal (some reload)) [] []
      (init_logging lists sample_config) reloads
