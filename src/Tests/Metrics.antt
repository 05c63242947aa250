-- ===== src/Tests/Metrics.antt =====
-- The theorems on the metrics of src/runtime.rs and on the times of a lease, at concrete values.
use macmapd.Base.{ℕ, none, refl, ◌≡◌, ◌⊎◌, ◌<◌, ◌+◌, [], All, ascii, arith}
use macmapd.Runtime.{Shared, new_shared, RequestLabels, RequestMetrics}
use macmapd.Runtime.Metrics.{Texts, metrics}
use macmapd.Runtime.Metrics.Lines.{literal}
use macmapd.Runtime.Metrics.Scrape.{IsScraped, metrics-IsScraped}
use macmapd.Runtime.Requests.{count_request, prune, metric_idle_ttl, prune_interval}
use macmapd.Runtime.Requests.Age.{IsAged, Used, unused, request, scrape, Used-IsAged}
use macmapd.Dhcp.Reply.Body.{put_times}
use macmapd.Dhcp.Reply.Times.{IsTimed, put_times-IsTimed}

put_times-IsTimed_example :
    ((3600 < 8) × (put_times 3600 [] ≡ [])) ⊎ IsTimed 3600 [] (put_times 3600 [])
put_times-IsTimed_example = put_times-IsTimed 3600 [] (omega arith)

abbrev no_series : RequestMetrics
no_series = record { series = []; last_pruned = none }

abbrev some_labels : RequestLabels
some_labels = record {
  location = ascii "a";
  hostname = ascii "b";
  stage = ascii "os";
  route = ascii "default";
  message = ascii "request";
}

-- A request, a scrape a day later, and one after another minute.
abbrev day : ℕ
day = metric_idle_ttl

abbrev used : RequestMetrics
used = prune (day + prune_interval) (prune day (count_request 9 some_labels no_series))

used-Used : Used (day + prune_interval) used
used-Used =
    scrape (day + prune_interval)
      (scrape day (request 9 some_labels unused (omega arith)) (omega arith)) (omega arith)

Used-IsAged_example :
    IsAged (day + prune_interval) used
    × All (λ e. day + prune_interval < e.1.1 + (metric_idle_ttl + prune_interval)) used.series
Used-IsAged_example = Used-IsAged (day + prune_interval) used used-Used

abbrev plain : Texts
plain = record { version = ascii "1"; age_text = λ age. ascii "NaN"; sum = ascii "0" }

abbrev scraped : Shared
scraped = record new_shared { request_labels = used }

metrics-IsScraped_example : IsScraped plain 5 6 scraped (metrics plain 5 6 scraped).1
metrics-IsScraped_example =
    metrics-IsScraped plain 5 6 scraped (λ age. literal (ascii "NaN") refl)
      (literal (ascii "0") refl)
