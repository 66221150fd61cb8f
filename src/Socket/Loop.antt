-- ===== src/Socket/Loop.antt =====
-- The loop of a connection's task (src/base/ws/client.rs): each turn takes one event of its
-- `select!`, and either goes on or breaks with an error text. A callback's future that is not done at
-- its first poll is kept in `client_tasks`, and what is being sent to the sink in `ext_tasks`; both
-- finish in any order. The limiter only delays a send.
pub mod Delivery
use arbexpert_backend.Base.{
  ℕ, zero, suc, ◌+◌, ◌-◌, String, Bool, true, false, Option, none, some, List, [], ◌∷◌, ◌++◌, ltb,
  length, if◌then◌else◌,
}

-- `ws::Message`, with payloads of a type of their own.
pub data WsMessage (P : Type 0) : Type 0 where
  text : String → WsMessage P
  ping pong : P → WsMessage P
  close : WsMessage P

-- What a turn's `select!` finds. `later` is whether the callback's future is not done at once.
pub data Event (P : Type 0) : Type 0 where
  -- The ping interval: a tick, or its end.
  ticks : Bool → Event P
  -- A frame: a binary one; a text, `none` if it is not UTF-8; a ping; a pong; the other three, which
  -- end the loop: a close, a continuation and an error; and the end of the frames.
  binary : P → (later : Bool) → Event P
  texts : Option String → (later : Bool) → Event P
  pinged : P → Event P
  ponged : Event P
  closed continued errs ended : Event P
  -- A message of `send` or `close` of the client, or `none` once its sender is gone.
  command : Option (WsMessage P) → Event P
  -- A task of the two sets is done: of the first set, or the one at the place in the second, with
  -- whether it was sent.
  client_done : Event P
  ext_done : ℕ → Bool → Event P

-- The texts of the `break`s; those that print an error have it left out.
pub data Broken : Type 0 where
  ping_failed utf8_failed closed_socket continuation websocket_error closed_message : Broken
  closed_command wsclient_failed closed_ext send_failed : Broken

pub record LoopState (P : Type 0) : Type 0 where
  pub client_tasks : ℕ
  pub ext_tasks : List (WsMessage P)
  -- What the two callbacks were called with, and what the sink took.
  pub texts_handled : List String
  pub binaries_handled : List P
  pub sent : List (WsMessage P)

abbrev pub new_loop : {P : Type 0} → LoopState P
new_loop = record {
  client_tasks = 0;
  ext_tasks = [];
  texts_handled = [];
  binaries_handled = [];
  sent = [];
}

pub data Turn (P : Type 0) : Type 0 where
  goes_on : LoopState P → Turn P
  breaks : Broken → LoopState P → Turn P

-- The task at a place, and the others.
unfoldable pub take_at {ℓ} : {A : Type ℓ} → ℕ → List A → Option (A × List A)
take_at n [] = none
take_at zero (x ∷ xs) = some (x, xs)
take_at (suc n) (x ∷ xs) = elim (take_at n xs) [ none ↦ none | some r ↦ some (r.0, x ∷ r.1) ]

module _ {P : Type 0} (no_payload : P) where
  abbrev push : WsMessage P → LoopState P → Turn P
  push m l = goes_on (record l { ext_tasks = l.ext_tasks ++ m ∷ [] })

  -- `project!`: a future that is not done is kept.
  abbrev count_task : Bool → ℕ → ℕ
  count_task later n = if later then n + 1 else n

  -- One turn. The two sets are asked only where they are not empty; with none in them, their `next`
  -- gives `None`, which breaks.
  unfoldable pub on_event : Event P → LoopState P → Turn P
  on_event (ticks true) l = push (ping no_payload) l
  on_event (ticks false) l = breaks ping_failed l
  on_event (binary p later) l = goes_on (record l {
    client_tasks = count_task later l.client_tasks;
    binaries_handled = l.binaries_handled ++ p ∷ [];
  })
  on_event (texts (some t) later) l = goes_on (record l {
    client_tasks = count_task later l.client_tasks;
    texts_handled = l.texts_handled ++ t ∷ [];
  })
  on_event (texts none later) l = breaks utf8_failed l
  on_event (pinged p) l = push (pong p) l
  on_event ponged l = goes_on l
  on_event closed l = breaks closed_socket l
  on_event continued l = breaks continuation l
  on_event errs l = breaks websocket_error l
  on_event ended l = breaks closed_message l
  on_event (command (some m)) l = push m l
  on_event (command none) l = breaks closed_command l
  on_event client_done l =
      if ltb 0 l.client_tasks
      then goes_on (record l { client_tasks = l.client_tasks - 1 })
      else breaks wsclient_failed l
  on_event (ext_done i ok) l = elim (take_at i l.ext_tasks) [
    | none ↦ breaks closed_ext l
    | some r ↦
        if ok
        then goes_on (record l { ext_tasks = r.1; sent = l.sent ++ r.0 ∷ [] })
        else breaks send_failed (record l { ext_tasks = r.1 })
  ]

  -- The loop over the events, to the first that breaks.
  unfoldable pub run : List (Event P) → LoopState P → Turn P
  run [] l = goes_on l
  run (e ∷ es) l = elim (on_event e l) [ goes_on m ↦ run es m | breaks why m ↦ breaks why m ]
