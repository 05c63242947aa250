-- ===== src/Main/Signals.antt =====
-- `shutdown_or_reload` of src/main.rs on Unix. The events are what `select!` sees, in order, and
-- whether `Config::load` accepts the file at a hangup is part of the event.
use mathlib.Core.Path.{subst}
use macmapd.Base.{
  ℕ, zero, suc, ◌≡◌, ◌↔◌, refl, ap, Bool, true, false, List, [], ◌∷◌, ◌++◌, replicate,
}

pub data Signal : Type 0 where
  shutdown reload : Signal

pub data Event : Type 0 where
  interrupted : Bool → Event
  terminated : Event
  hung_up : Bool → Event

-- Still in the loop, or the result of the function.
pub data Waiting : Type 0 where
  waiting failed : Waiting
  signalled : Signal → Waiting

unfoldable pub wait : List Event → Waiting
wait [] = waiting
wait (interrupted true ∷ events) = signalled shutdown
wait (interrupted false ∷ events) = failed
wait (terminated ∷ events) = signalled shutdown
wait (hung_up true ∷ events) = signalled reload
wait (hung_up false ∷ events) = wait events

-- `registered` says whether the two signal handlers could be installed.
unfoldable pub shutdown_or_reload : Bool → List Event → Waiting
unfolding wait
shutdown_or_reload true events = wait events
shutdown_or_reload false events = failed

-- Some hangups with a configuration that is not accepted.
abbrev pub rejected : ℕ → List Event
rejected n = replicate n (hung_up false)

wait-rejected : (n : ℕ) (events : List Event) → wait (rejected n ++ events) ≡ wait events
unfolding wait replicate
wait-rejected zero events = refl
wait-rejected (suc n) events = wait-rejected n events

-- Hangups that are rejected, then one that is accepted, then anything.
pub record IsReload (events : List Event) : Type 0 where
  pub count : ℕ
  pub rest : List Event
  pub shown : rejected count ++ (hung_up true ∷ rest) ≡ events

push_rejected : (events : List Event) → IsReload events → IsReload (hung_up false ∷ events)
unfolding replicate
push_rejected events h = record {
  count = suc h.count;
  rest = h.rest;
  shown = ap (λ (l : List Event). hung_up false ∷ l) h.shown;
}

wait→IsReload : (events : List Event) → wait events ≡ signalled reload → IsReload events
unfolding wait replicate
wait→IsReload [] e = cc
wait→IsReload (interrupted true ∷ events) e = cc
wait→IsReload (interrupted false ∷ events) e = cc
wait→IsReload (terminated ∷ events) e = cc
wait→IsReload (hung_up true ∷ events) e = record { count = 0; rest = events; shown = refl }
wait→IsReload (hung_up false ∷ events) e = push_rejected events (wait→IsReload events e)

-- With its handlers installed, the program reloads exactly when a hangup finds a configuration that
-- is accepted, behind any number of hangups with one that is not and nothing else: a rejected
-- configuration neither stops the program nor keeps it from a later reload.
pub shutdown_or_reload_iff :
    (events : List Event) → (shutdown_or_reload true events ≡ signalled reload) ↔ IsReload events
unfolding shutdown_or_reload wait
shutdown_or_reload_iff events = (
  wait→IsReload events,
  λ h.
      subst (λ l. wait l ≡ signalled reload) h.shown
        (wait-rejected h.count (hung_up true ∷ h.rest)),
)
