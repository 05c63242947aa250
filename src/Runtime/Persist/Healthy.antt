-- ===== src/Runtime/Persist/Healthy.antt =====
-- The health check of src/runtime.rs on a program that keeps its table.
use macmapd.Base.{ℕ, ◌≡◌, refl, true, ap, List, Option, Bytes, length, some}
use macmapd.Clients.Table.{Row}
use macmapd.Runtime.Health.{health, records_of, unwrap_or_zero, health_iff}
use macmapd.Runtime.Persist.{contents, Disk}
use macmapd.Runtime.Persist.Restart.{World, Lives}
use macmapd.Runtime.Persist.Serving.{IsGood}
use macmapd.Runtime.Persist.Survives.{Lives-IsServing}
use macmapd.Clients.{Clients}

-- If the state file held a table that can be loaded when the program was started first, then once
-- the DHCP socket is ready, the health check answers 200 in every world that the program reaches
-- and in which the last start could read the file, across failed polls, kills and restarts; and it
-- reports the number of clients of the table that is served.
pub Lives-health :
    (read_csv : Bytes → List (Option Row)) (name : Bytes) (first : Disk) (w : World) (now : ℕ)
    → IsGood read_csv (contents (first name))
    → Lives read_csv name first true w
    → w.shared.dhcp_ready ≡ true
    → ((health now w.shared).code ≡ 200)
      × ((cs : Clients) × (w.shared.snapshot ≡ some cs)
          × ((health now w.shared).clients ≡ length cs.records))
unfolding health
Lives-health read_csv name first w now h l ready =
    let table = (Lives-IsServing read_csv name first true w h l).table refl in
    (
      (health_iff now w.shared).1 ((table.clients, table.live), ready),
      (table.clients, table.live, ap (λ o. unwrap_or_zero (records_of o)) table.live),
    )
