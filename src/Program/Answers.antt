-- ===== src/Program/Answers.antt =====
-- Whom the running program of src/main.rs answers, over its whole history.
use mathlib.Core.Path.{subst}
use mathlib.Core.List.Memᴰ.{head}
use macmapd.Base.{
  ℕ, zero, suc, ◌≡◌, inl, inr, refl, sym, ap, ◌∙◌, Bool, Option, none, some, List, [], ◌∷◌, Bytes,
  All, length, ok, ◌>>=◌,
}
use macmapd.Base.Yields.{Yields, Yields-ok, Yields-bind}
use macmapd.Net.{Ipv4Addr}
use macmapd.Config.{Config}
use macmapd.Clients.{Clients, bytes_Eq}
use macmapd.Clients.Table.{Row}
use macmapd.Clients.Table.Contents.{parse-Holds}
use macmapd.Dhcp.{Packet}
use macmapd.Dhcp.Parse
use macmapd.Dhcp.Reply.{Reply}
use macmapd.Runtime.{Shared, bump}
use macmapd.Dhcp.{DhcpError}
use macmapd.Runtime.Total.{load_task-ok, sync_task-ok}
use macmapd.Runtime.Origin.{Brings, load-Brings, sync_round-Brings}
use macmapd.Runtime.Metrics.{metrics}
use macmapd.Server.{explicit, find_client}
use macmapd.Server.Due.{IsDue, responses_after}
use macmapd.Server.Laws.{handle-IsServed}
use macmapd.Server.Loop.{ready, sent_first, server_of}
use macmapd.Server.Loop.Total.{handled}
use macmapd.Server.Loop.Runs.{counted}
use macmapd.Program.{
  TaskEvent, loaded, polled, listening, received, scraped, Running, program_step, run_program,
}
use macmapd.Program.History.{
  HasRead, from_file, from_remote, requests_in, IsOurs, IsAnswer, IsTraced, IsOurs-later,
  answers_later,
}

counted-bump : (k n : ℕ) → bump (counted k n) ≡ counted k (bump n)
counted-bump zero n = refl
counted-bump (suc k) n = counted-bump k (bump n)

responses_after-sent_first :
    (o : Option Reply) (replies : List Reply)
    → responses_after o (counted (length replies) 0) ≡ counted (length (sent_first o replies)) 0
responses_after-sent_first none replies = refl
responses_after-sent_first (some r) replies = counted-bump (length replies) 0

module _ (read_csv : Bytes → List (Option Row)) (config : Config) where
  -- A step of another task than the DHCP server.
  other-IsTraced :
      (e : TaskEvent) (past : List TaskEvent) (w : Running) (t : Shared) (P : Bytes → Type 0)
      → requests_in (e ∷ past) ≡ requests_in past
      → ((bytes : Bytes) → P bytes → HasRead (e ∷ past) bytes)
      → Brings read_csv P w.shared t
      → IsTraced read_csv config past w
      → (v : Running) → v.shared ≡ t
      → v.replies ≡ w.replies
      → IsTraced read_csv config (e ∷ past) v
  other-IsTraced e past w t P same reads b i v is_t is_w = record {
    table = λ cs is. elim b.snapshot [
      | inl kept ↦
          IsOurs-later read_csv e past cs
            (i.table cs (sym kept ∙ ap (λ s. s.snapshot) (sym is_t) ∙ is))
      | inr (bytes, ds, p, parsed, new) ↦
          let one : ds ≡ cs = cc in
          record { bytes = bytes; has_read = reads bytes p; parsed = parsed ∙ ap ok one }
    ];
    answers =
        subst (All (IsAnswer read_csv config (e ∷ past))) (sym is_w)
          (answers_later read_csv config e past w.replies i.answers);
    requests =
        ap (λ s. s.requests) is_t ∙ b.requests ∙ i.requests ∙ ap (λ n. counted n 0) (sym same);
    responses =
        ap (λ s. s.responses) is_t
        ∙ b.responses
        ∙ i.responses
        ∙ ap (λ l. counted (length l) 0) (sym is_w);
  }

  -- The reply to a datagram, if there is one.
  due-IsAnswer :
      (now : ℕ) (sent : Bool) (local : Ipv4Addr) (datagram : Bytes) (past : List TaskEvent)
      (snapshot : Option Clients) (p : Packet) (r : Reply)
      → ((cs : Clients) → snapshot ≡ some cs → IsOurs read_csv past cs)
      → macmapd.Dhcp.Parse.parse datagram ≡ ok p
      → IsDue config (server_of (explicit config) local) p (find_client snapshot p.mac) r
      → IsAnswer read_csv config (received now sent local datagram ∷ past) r
  due-IsAnswer now sent local datagram past none p r ours parsed due =
      absurd (let e = due.found in cc)
  due-IsAnswer now sent local datagram past (some cs) p r ours parsed due =
      let o = ours cs refl in
      let consistent = (parse-Holds read_csv o.bytes cs o.parsed).consistent in
      let (_, is_client, _) = consistent.by_mac p.mac due.known due.found in
      record {
        later = [];
        before = past;
        now = now;
        sent = sent;
        local = local;
        datagram = datagram;
        split = refl;
        packet = p;
        is_packet = parsed;
        table = cs;
        is_ours = o;
        client = due.known;
        listed = due.found;
        is_client = is_client;
        fits = due.fits;
        made = due.made;
      }

  sent-IsAnswer :
      (past : List TaskEvent) (o : Option Reply) (replies : List Reply)
      → ((r : Reply) → o ≡ some r → IsAnswer read_csv config past r)
      → All (IsAnswer read_csv config past) replies
      → All (IsAnswer read_csv config past) (sent_first o replies)
  sent-IsAnswer past none replies h k = k
  sent-IsAnswer past (some r) replies h k = (h r refl, k)

  received-IsTraced :
      (now : ℕ) (sent : Bool) (local : Ipv4Addr) (datagram : Bytes) (past : List TaskEvent)
      (w : Running)
      → IsTraced read_csv config past w
      → Yields
          (IsTraced read_csv config (received now sent local datagram ∷ past))
          (program_step read_csv config (received now sent local datagram) w)
  unfolding program_step ◌>>=◌
  received-IsTraced now sent local datagram past w i =
      let event = received now sent local datagram in
      let server = server_of (explicit config) local in
      let (h, e) = handled config server now sent datagram w.shared in
      let effect = handle-IsServed config server now sent datagram w.shared h e in
      rw e (
        Yields-ok (record {
          table =
              λ cs is. IsOurs-later read_csv event past cs (i.table cs (sym effect.snapshot ∙ is));
          answers =
              sent-IsAnswer (event ∷ past) h.sent w.replies
                (λ r is_sent.
                  let (p, parsed, due) = effect.due r is_sent in
                  due-IsAnswer now sent local datagram past w.shared.snapshot p r i.table parsed
                    due)
                (answers_later read_csv config event past w.replies i.answers);
          requests = effect.requests ∙ ap bump i.requests ∙ counted-bump (requests_in past) 0;
          responses =
              effect.responses
              ∙ ap (responses_after h.sent) i.responses
              ∙ responses_after-sent_first h.sent w.replies;
        }))

  none_read :
      (s t : Shared)
      → t.snapshot ≡ s.snapshot
      → t.requests ≡ s.requests
      → t.responses ≡ s.responses
      → Brings read_csv (λ b. ⊥) s t
  none_read s t e f g = record { snapshot = inl e; requests = f; responses = g }

  program_step-IsTraced :
      (e : TaskEvent) (past : List TaskEvent) (w : Running)
      → IsTraced read_csv config past w
      → Yields (IsTraced read_csv config (e ∷ past)) (program_step read_csv config e w)
  unfolding program_step metrics ◌>>=◌
  program_step-IsTraced (loaded saved) past w i =
      rw (load_task-ok read_csv {E = DhcpError} saved w.shared) (
        Yields-ok (
          other-IsTraced (loaded saved) past w _ _ refl
            (λ bytes is. from_file (head (sym (ap loaded is))))
            (load-Brings read_csv saved w.shared) i _ refl refl))
  program_step-IsTraced (polled response saved now) past w i =
      rw (sync_task-ok read_csv {E = DhcpError} response saved now w.shared w.cache) (
        Yields-ok (
          other-IsTraced (polled response saved now) past w _ _ refl
            (λ bytes (r, is, body).
              from_remote r saved now (head (sym (ap (λ t. polled t saved now) is))) body)
            (sync_round-Brings read_csv response saved now w.shared w.cache) i _ refl refl))
  program_step-IsTraced listening past w i = Yields-ok (
      other-IsTraced listening past w (ready w.shared) _ refl (λ bytes f. absurd f)
        (none_read w.shared (ready w.shared) refl refl refl) i _ refl refl)
  program_step-IsTraced (received now sent local datagram) past w i =
      received-IsTraced now sent local datagram past w i
  program_step-IsTraced (scraped texts now instant) past w i =
      let t = (metrics texts now instant w.shared).0 in
      Yields-ok (
        other-IsTraced (scraped texts now instant) past w t _ refl (λ bytes f. absurd f)
          (none_read w.shared t refl refl refl) i _ refl refl)

  -- After any history of the program's tasks, whatever the datagrams, the responses, the saved file
  -- and the system calls were, no task has panicked (the fields of the log are left out); the table in
  -- service is what `parse` makes of a state file or of a response body that the program has got; every
  -- reply that was sent answers a datagram of the history, and is what `reply` computes for a
  -- well-formed client with the MAC address of that datagram in a table that the program had got before
  -- the datagram came; and the counters of requests and responses are the numbers of the datagrams and
  -- of the replies, modulo their wrap-around.
  pub run_program-IsTraced :
      (past : List TaskEvent)
      → Yields (IsTraced read_csv config past) (run_program read_csv config past)
  unfolding run_program
  run_program-IsTraced [] =
      Yields-ok (record { table = λ cs is. cc; answers = tt; requests = refl; responses = refl })
  run_program-IsTraced (e ∷ past) =
      Yields-bind (run_program read_csv config past) _ (run_program-IsTraced past)
        λ w i. program_step-IsTraced e past w i
