-- ===== src/Tests/Running.antt =====
-- The theorem on the running program, at a short history.
use macmapd.Base.{true, none, some, List, [], ◌∷◌, ascii}
use macmapd.Base.Yields.{Yields}
use macmapd.Runtime.Sync.{not_found}
use macmapd.Runtime.Metrics.{Texts}
use macmapd.Program.{TaskEvent, loaded, polled, listening, received, scraped, run_program}
use macmapd.Program.History.{IsTraced}
use macmapd.Program.Answers.{run_program-IsTraced}
use macmapd.Tests.Samples.{sample_config, server_ip}
use macmapd.Tests.Table.{read_two}
use macmapd.Tests.Wire.{datagram}
use macmapd.Tests.Disk.{good_answer}

abbrev some_texts : Texts
some_texts = record { version = ascii "1"; age_text = λ age. ascii "NaN"; sum = ascii "0" }

-- Started without a state file, polled once without and once with an answer, and scraped, between
-- three datagrams, one of them empty.
abbrev history : List TaskEvent
history =
    received 12 true server_ip datagram
    ∷ scraped some_texts 11 11
    ∷ polled (some good_answer) true 10
    ∷ received 9 true server_ip []
    ∷ received 8 true server_ip datagram
    ∷ polled none true 7
    ∷ listening
    ∷ loaded not_found
    ∷ []

run_program-IsTraced_example :
    Yields (IsTraced read_two sample_config history) (run_program read_two sample_config history)
run_program-IsTraced_example = run_program-IsTraced read_two sample_config history
