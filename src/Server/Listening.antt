-- ===== src/Server/Listening.antt =====
-- `run` and `main` of websocket_server.cpp: the handlers that the event loop calls, and what the threads
-- of messages write into the subscriptions in between.
use deribit_trading_system.Base.{
  ℕ, suc, ◌≡◌, refl, Bool, true, false, not, ◌&&◌, ◌||◌, List, [], ◌∷◌, ◌++◌, ◌∙◌, Option, none,
  some, ◌==◌, if◌then◌else◌, arith, Option-cases, inl, inr,
}
use deribit_trading_system.Text.{Bytes}
use deribit_trading_system.Server.Handles.{lock}
use deribit_trading_system.Server.{Subscriptions, subscribe, unsubscribe, count, on_open, on_close}

-- A connection opens, is closed, and is gone when nothing holds it any more. The last event is
-- `m_subscriptions[hdl] = symbol` in the thread of a message.
pub data Event : Type 0 where
  opened : ℕ → Event
  closed : ℕ → Event
  expired : ℕ → Event
  arrived : ℕ → Bytes → Event
  subscribed : ℕ → Bytes → Event

-- The subscriptions, the connections that are there, and the messages for which a thread was started.
pub record Listener : Type 0 where
  pub subscriptions : Subscriptions
  pub alive : ℕ → Bool
  pub threads : List (ℕ × Bytes)

abbrev pub set_alive : ℕ → Bool → (ℕ → Bool) → ℕ → Bool
set_alive hdl there alive h = if h == hdl then there else alive h

unfoldable pub dispatch : Event → Listener → Listener
dispatch (opened hdl) s =
    let alive = set_alive hdl true s.alive in
    record s { subscriptions = on_open (lock alive hdl) s.subscriptions; alive = alive }
dispatch (closed hdl) s = record s { subscriptions = on_close (lock s.alive hdl) s.subscriptions }
dispatch (expired hdl) s = record s { alive = set_alive hdl false s.alive }
dispatch (arrived hdl payload) s = record s { threads = s.threads ++ ((hdl, payload) ∷ []) }
dispatch (subscribed hdl symbol) s = record s {
  subscriptions = subscribe (lock s.alive hdl) symbol s.subscriptions;
}

unfoldable pub run : List Event → Listener → Listener
unfolding dispatch
run [] s = s
run (event ∷ events) s = run events (dispatch event s)

abbrev pub fresh : Listener
fresh = record { subscriptions = λ key. none; alive = λ hdl. false; threads = [] }

-- `main`: the exit code, with what the server did.
unfoldable pub main : Option Bytes → Option Bytes → List Event → ℕ × Listener
unfolding run
main none client_secret events = (1, fresh)
main (some client_id) none events = (1, fresh)
main (some client_id) (some client_secret) events = (0, run events fresh)

-- The connections that are there behind an event.
abbrev pub alive_after : Event → (ℕ → Bool) → ℕ → Bool
alive_after (opened hdl) alive = set_alive hdl true alive
alive_after (expired hdl) alive = set_alive hdl false alive
alive_after event alive = alive

abbrev pub enters : ℕ → (ℕ → Bool) → Event → Bool
enters key alive (opened hdl) = key == suc hdl
enters key alive (subscribed hdl symbol) = key == lock alive hdl
enters key alive event = false

abbrev pub leaves : ℕ → (ℕ → Bool) → Event → Bool
leaves key alive (closed hdl) = key == lock alive hdl
leaves key alive event = false

-- No such key is erased.
abbrev pub stays : ℕ → (ℕ → Bool) → List Event → Bool
stays key alive [] = true
stays key alive (event ∷ events) =
    not (leaves key alive event) && stays key (alive_after event alive) events

-- Some event enters the key, and it is not erased behind it.
abbrev pub entered : ℕ → (ℕ → Bool) → List Event → Bool
entered key alive [] = false
entered key alive (event ∷ events) =
    (enters key alive event && stays key (alive_after event alive) events)
    || entered key (alive_after event alive) events

-- Whether an entry is there.
there : Option Bytes → Bool
there none = false
there (some symbol) = true

count-there :
    (hdl : ℕ) (subscriptions : Subscriptions) → count hdl subscriptions ≡ there (subscriptions hdl)
unfolding count there
count-there hdl subscriptions = elim (Option-cases (subscriptions hdl)) [
  | inl e ↦ rw (e, count) refl
  | inr (symbol, e) ↦ rw (e, count) refl
]

there_if_some :
    (b : Bool) (symbol : Bytes) (o : Option Bytes)
    → there (if b then some symbol else o) ≡ b || there o
unfolding there
there_if_some true symbol o = refl
there_if_some false symbol o = refl

there_if_none : (b : Bool) (o : Option Bytes) → there (if b then none else o) ≡ not b && there o
unfolding there
there_if_none true o = refl
there_if_none false o = refl

lock_opened : (alive : ℕ → Bool) (hdl : ℕ) → lock (set_alive hdl true alive) hdl ≡ suc hdl
lock_opened alive hdl = ground arith

dispatch-count :
    (key : ℕ) (event : Event) (s : Listener)
    → count key (dispatch event s).subscriptions
      ≡ enters key s.alive event || (not (leaves key s.alive event) && count key s.subscriptions)
unfolding dispatch on_open on_close subscribe unsubscribe
dispatch-count key (opened h) s = rw (lock_opened s.alive h) (
    rw (count-there key (on_open (suc h) s.subscriptions), count-there key s.subscriptions)
      (there_if_some (key == suc h) [] (s.subscriptions key)))
dispatch-count key (closed h) s =
    rw
      (count-there key (on_close (lock s.alive h) s.subscriptions), count-there key s.subscriptions)
      (there_if_none (key == lock s.alive h) (s.subscriptions key))
dispatch-count key (expired h) s = refl
dispatch-count key (arrived h payload) s = refl
dispatch-count key (subscribed h symbol) s =
    rw
      (
        count-there key (subscribe (lock s.alive h) symbol s.subscriptions),
        count-there key s.subscriptions,
      )
      (there_if_some (key == lock s.alive h) symbol (s.subscriptions key))

dispatch-alive :
    (event : Event) (s : Listener) → (dispatch event s).alive ≡ alive_after event s.alive
unfolding dispatch
dispatch-alive (opened h) s = refl
dispatch-alive (closed h) s = refl
dispatch-alive (expired h) s = refl
dispatch-alive (arrived h payload) s = refl
dispatch-alive (subscribed h symbol) s = refl

shuffle :
    (enter leave stay later there : Bool)
    → later || (stay && (enter || (not leave && there)))
      ≡ ((enter && stay) || later) || ((not leave && stay) && there)
shuffle enter leave stay true there = ground arith
shuffle enter leave true false there = ground arith
shuffle enter leave false false there = ground arith

run-entered :
    (key : ℕ) (events : List Event) (s : Listener)
    → count key (run events s).subscriptions
      ≡ entered key s.alive events || (stays key s.alive events && count key s.subscriptions)
unfolding run
run-entered key [] s = refl
run-entered key (event ∷ events) s =
    let alive = alive_after event s.alive in
    run-entered key events (dispatch event s)
    ∙ (rw (dispatch-count key event s, dispatch-alive event s)
        (shuffle (enters key s.alive event) (leaves key s.alive event) (stays key alive events)
          (entered key alive events) _))

nothing_before : (a b : Bool) → a || (b && false) ≡ a
nothing_before true b = refl
nothing_before false true = refl
nothing_before false false = refl

-- After any events of the server's loop and of the threads of messages, in any order, a key has an
-- entry in the subscriptions just if some event entered it and it was not erased behind that event.
-- The key of a handle is the address of its connection, or, once that is gone, null, as for all such.
pub main-entered :
    (client_id client_secret : Bytes) (events : List Event) (key : ℕ)
    → count key (main (some client_id) (some client_secret) events).1.subscriptions
      ≡ entered key (λ hdl. false) events
unfolding main count
main-entered client_id client_secret events key =
    run-entered key events fresh
    ∙ nothing_before (entered key (λ hdl. false) events) (stays key (λ hdl. false) events)
