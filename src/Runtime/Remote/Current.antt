-- ===== src/Runtime/Remote/Current.antt =====
-- That the program of src/runtime.rs serves the table that the remote server has.
use mathlib.Core.Path.{subst}
use macmapd.Base.{ℕ, ◌≡◌, inl, inr, sym, ◌∙◌, Bool, Option, none, some, List, Bytes, ok}
use macmapd.Clients.{Clients}
use macmapd.Clients.Table.{Row, parse}
use macmapd.Runtime.{Shared}
use macmapd.Runtime.Sync.{Response, RemoteCache, Polled, poll, sync_round}
use macmapd.Runtime.Reachable.{Reaches, started, polled, served, Reaches-IsSynced, poll-IsSynced}
use macmapd.Runtime.Retention.{poll-Keeps}
use macmapd.Runtime.Remote.{Request, request_of, IsHonest, Follows}
use macmapd.Runtime.Remote.Cached.{IsValidated, poll-IsUpToDate}

some_inj : {x y : Bytes} → ◌≡◌ {A = Option Bytes} (some x) (some y) → x ≡ y
some_inj e = cc

module _ (read_csv : Bytes → List (Option Row))
    (Validates : Option Bytes → Option Bytes → Bytes → Type 0) where
  round-IsValidated :
      (content : Bytes) (answer : Request → Response)
      → IsHonest Validates content answer
      → (saved : Bool) (now : ℕ) (s : Shared) (c : RemoteCache) → IsValidated read_csv Validates c
      → IsValidated read_csv Validates
          (sync_round read_csv (some (answer (request_of c))) saved now (s, c)).1
  unfolding sync_round
  round-IsValidated content answer honest saved now s c v =
      elim (poll-Keeps read_csv (some (answer (request_of c))) saved now s c) [
        | inl done ↦
            let u = poll-IsUpToDate read_csv Validates content answer honest saved now s c v done in
            record {
              validates = λ bytes e.
                  let same : content ≡ bytes = some_inj (sym u.body ∙ e) in
                  subst (Validates _ _) same u.validates;
            }
        | inr kept ↦ subst (IsValidated read_csv Validates) (sym kept.cache) v
      ]

  unreached :
      (saved : Bool) (now : ℕ) (s : Shared) (c : RemoteCache)
      → IsValidated read_csv Validates c
      → IsValidated read_csv Validates (sync_round read_csv none saved now (s, c)).1
  unfolding sync_round poll
  unreached saved now s c v = v

  Follows-IsValidated :
      (s : Shared) (c : RemoteCache)
      → Follows read_csv Validates s c
      → IsValidated read_csv Validates c
  Follows-IsValidated _ _ (Follows.started saved) = record { validates = λ bytes e. absurd cc }
  Follows-IsValidated _ _ (Follows.polled {s} {c} {content} {answer} saved now honest f) =
      round-IsValidated content answer honest saved now s c (Follows-IsValidated s c f)
  Follows-IsValidated _ _ (Follows.unreachable {s} {c} saved now f) =
      unreached saved now s c (Follows-IsValidated s c f)
  Follows-IsValidated _ _ (Follows.served {s} {t} {c} f e) = Follows-IsValidated s c f

  Follows-Reaches :
      (s : Shared) (c : RemoteCache) → Follows read_csv Validates s c → Reaches read_csv s c
  Follows-Reaches _ _ (Follows.started saved) = started saved
  Follows-Reaches _ _ (Follows.polled {s} {c} {content} {answer} saved now honest f) =
      polled (some (answer (request_of c))) saved now (Follows-Reaches s c f)
  Follows-Reaches _ _ (Follows.unreachable {s} {c} saved now f) =
      polled none saved now (Follows-Reaches s c f)
  Follows-Reaches _ _ (Follows.served {s} {t} {c} f e) = served (Follows-Reaches s c f) e

-- A poll that left exactly the table of `content` to serve.
pub record IsCurrent (read_csv : Bytes → List (Option Row)) (content : Bytes) (p : Polled)
    : Type 0 where
  pub clients : Clients
  pub parsed : parse read_csv content ≡ ok clients
  pub snapshot : p.shared.snapshot ≡ some clients
  pub body : p.cache.body ≡ some content

-- Against an honest server, whose file may change between the polls, every poll that succeeds
-- leaves exactly the table that the server has then: after a download, but after a 304 as well,
-- since the validators that `poll` sends are always those of the table that is served. What happened
-- before, answers that could not be used and tables that could not be saved included, does not
-- matter.
pub Follows-IsCurrent :
    (read_csv : Bytes → List (Option Row))
    (Validates : Option Bytes → Option Bytes → Bytes → Type 0) (content : Bytes)
    (answer : Request → Response) (saved : Bool) (now : ℕ) (s : Shared) (c : RemoteCache)
    → IsHonest Validates content answer
    → Follows read_csv Validates s c
    → (poll read_csv (some (answer (request_of c))) saved now s c).result ≡ ok tt
    → IsCurrent read_csv content (poll read_csv (some (answer (request_of c))) saved now s c)
Follows-IsCurrent read_csv Validates content answer saved now s c honest f done =
    let v = Follows-IsValidated read_csv Validates s c f in
    let u = poll-IsUpToDate read_csv Validates content answer honest saved now s c v done in
    let synced = Reaches-IsSynced read_csv s c (Follows-Reaches read_csv Validates s c f) in
    let after = poll-IsSynced read_csv (some (answer (request_of c))) saved now s c synced in
    let (clients, parsed, snapshot) = after.from_cache content u.body in
    record { clients = clients; parsed = parsed; snapshot = snapshot; body = u.body }
