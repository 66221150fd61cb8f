-- ===== src/Socket.antt =====
-- `WsClient` of src/base/ws/client.rs: the state of one connection. `connect` is cut at its await of
-- the handshake. A channel (`mpsc::channel`) is a number; the task that receives from it is the loop
-- of the connection, and `send` of the crate's channel fails once the receiver is gone, which is when
-- that task has ended. A waiting call of `connect` is the number of its `oneshot` sender.
pub mod Status
pub mod Loop
pub mod Life
use arbexpert_backend.Base.{
  ℕ, ◌+◌, Bool, true, false, not, ◌&&◌, ◌||◌, Option, none, some, List, [], ◌∷◌, ◌++◌, ◌==◌,
  if◌then◌else◌,
}
use arbexpert_backend.Socket.Status.{
  ConnectStatus, connecting, connected, disconnected, to_repr, try_from,
}

pub record WsClient : Type 0 where
  -- `connect_status`, the `u8` of a `ConnectStatusRepr`.
  pub status : ℕ
  pub sender : Option ℕ
  pub waiting : List ℕ
  -- The channels whose loops run, and the number of the next channel.
  pub loops : List ℕ
  pub next_channel : ℕ
  -- The waiting calls that were sent to, those that were dropped, and how often `on_connected`, and
  -- `on_error` with `on_close`, were called.
  pub told : List ℕ
  pub dropped : List ℕ
  pub opened : ℕ
  pub failures : ℕ

abbrev pub new_ws : WsClient
new_ws = record {
  status = to_repr disconnected;
  sender = none;
  waiting = [];
  loops = [];
  next_channel = 0;
  told = [];
  dropped = [];
  opened = 0;
  failures = 0;
}

-- `status.try_into() == Ok(..)`.
abbrev pub has_status : ConnectStatus → ℕ → Bool
has_status s n = elim (try_from n) [ none ↦ false | some t ↦ to_repr t == to_repr s ]

abbrev pub is_connected : WsClient → Bool
is_connected c = has_status connected c.status

abbrev pub is_connecting : WsClient → Bool
is_connecting c = has_status connecting c.status

-- How the first piece of `connect` ends: with `Ok`, on its own `oneshot` receiver, with an error, or
-- at the handshake.
pub data Connect : Type 0 where
  returns_ok waits fails dials : Connect

-- `connect` up to its await. `builds` is whether the url is parsed and the builder accepts it.
unfoldable pub connect_begin : Bool → ℕ → WsClient → WsClient × Connect
connect_begin builds tx c =
    if is_connected c
    then (c, returns_ok)
    else if is_connecting c
    then (record c { waiting = c.waiting ++ tx ∷ [] }, waits)
    else (record c { status = to_repr connecting }, if builds then dials else fails)

-- `connect` from the answer to the handshake on; the state, and whether it returns `Ok`.
unfoldable pub connect_end : Bool → WsClient → WsClient × Bool
connect_end false c = (
  record c { status = to_repr disconnected; waiting = []; dropped = c.dropped ++ c.waiting },
  false,
)
connect_end true c = (
  record c {
    sender = some c.next_channel;
    status = to_repr connected;
    opened = c.opened + 1;
    waiting = [];
    told = c.told ++ c.waiting;
    loops = c.next_channel ∷ c.loops;
    next_channel = c.next_channel + 1;
  },
  true,
)

unfoldable pub drop_loop : ℕ → List ℕ → List ℕ
drop_loop ch [] = []
drop_loop ch (l ∷ ls) = let rest = drop_loop ch ls in if l == ch then rest else l ∷ rest

-- What the task of a connection does once its loop has broken.
unfoldable pub loop_end : ℕ → WsClient → WsClient
loop_end ch c = record c {
  status = to_repr disconnected;
  failures = c.failures + 1;
  loops = drop_loop ch c.loops;
}

unfoldable pub runs : ℕ → List ℕ → Bool
runs ch [] = false
runs ch (l ∷ ls) = l == ch || runs ch ls

-- `send` and `close`: whether they return `Ok`. What is queued is an event of the loop.
unfoldable pub send : WsClient → Bool
send c = elim c.sender [ none ↦ false | some ch ↦ runs ch c.loops ]

unfoldable pub close : WsClient → Bool
close c = elim c.sender [ none ↦ false | some ch ↦ runs ch c.loops ]
