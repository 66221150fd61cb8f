-- ===== src/SubClient.antt =====
-- src/base/exchange/sub_client.rs: the client that shares one web socket between the symbols that
-- are watched. An `async` method is cut at its awaits, and each piece is one function: what other
-- tasks do in between is a step of theirs. A `oneshot` sender is its number, and a shared book
-- (`Rc<RefCell<OrderBook>>`) a number too, under which `books` has what the cell holds.
pub mod Registry
pub mod Calls
pub mod Tasks
pub mod Connect
use arbexpert_backend.Base.{
  ℕ, ◌+◌, String, Bool, true, false, Option, none, some, List, [], ◌∷◌, ◌++◌, is_some, length, map,
  ◌==◌, if◌then◌else◌, inc32,
}
use arbexpert_backend.Std.HashMap
use arbexpert_backend.Std.HashMap.{HashMap}
use arbexpert_backend.OrderBook.{OrderBook, empty_book}

pub record Shared (D : Type 0) : Type 0 where
  pub books : ℕ → OrderBook D
  pub next_book : ℕ
  pub subscribed : HashMap ℕ
  pub pending : HashMap (List ℕ)
  -- The senders of the calls of `connect` that wait for another one.
  pub connecting : List ℕ
  -- The books that were sent, each with the sender that it went through.
  pub sent : List (ℕ × ℕ)

abbrev pub at_cell {ℓ} : {A : Type ℓ} → (ℕ → A) → ℕ → A → ℕ → A
at_cell f r a n = if n == r then a else f n

-- `*book.borrow_mut() = b`.
abbrev pub set_book : {D : Type 0} → ℕ → OrderBook D → Shared D → Shared D
set_book r b s = record s { books = at_cell s.books r b }

-- `map.get_mut(symbol).unwrap().push(tx)`; `none` is the panic of the `unwrap`.
unfoldable pub push_sender : String → ℕ → HashMap (List ℕ) → Option (HashMap (List ℕ))
push_sender symbol tx m = elim (HashMap.get symbol m) [
  | none ↦ none
  | some txs ↦ some (HashMap.insert symbol (txs ++ tx ∷ []) m)
]

-- What `watch` does next: it waits for a book, or returns an error.
pub data Watch : Type 0 where
  waits fails : Watch

module _ {D : Type 0} where
  unfoldable pub new : Shared D
  new = record {
    books = λ r. empty_book;
    next_book = 0;
    subscribed = [];
    pending = [];
    connecting = [];
    sent = [];
  }

  unfoldable pub on_fail : Shared D → Shared D
  on_fail s = record s { subscribed = []; pending = []; connecting = [] }

  unfoldable pub has_symbol : String → Shared D → Bool
  has_symbol symbol s = is_some (HashMap.get symbol s.subscribed)

  unfoldable pub subscribed_count : Shared D → ℕ
  subscribed_count s = length s.subscribed

  unfoldable pub subscribe_new : String → Shared D → Shared D
  subscribe_new symbol s = record s {
    books = at_cell s.books s.next_book empty_book;
    next_book = s.next_book + 1;
    subscribed = HashMap.insert symbol s.next_book s.subscribed;
    pending = HashMap.or_insert symbol [] s.pending;
  }

  -- `watch`, from the connection up to the first await: the state and whether this call is the
  -- first for the symbol.
  unfoldable pub register : String → ℕ → Shared D → Option (Shared D × Bool)
  unfolding has_symbol subscribe_new push_sender
  register symbol tx s =
      let first = if has_symbol symbol s then false else true in
      let s' = if first then subscribe_new symbol s else s in
      elim (push_sender symbol tx s'.pending) [
        | none ↦ none
        | some pending ↦ some (record s' { pending = pending }, first)
      ]

  -- `watch`, from the answer of the `subscribe` closure on. `sends` is whether `self.send` succeeds.
  unfoldable pub subscribe_answer :
      String → Bool → Option String → Bool → Shared D → Shared D × Watch
  subscribe_answer symbol false json sends s = (s, waits)
  subscribe_answer symbol true (some json) sends s = (s, if sends then waits else fails)
  subscribe_answer symbol true none sends s = (
    record s {
      subscribed = HashMap.remove symbol s.subscribed;
      pending = HashMap.remove symbol s.pending;
    },
    fails,
  )

  -- `unwatch` up to its await: what the symbol was subscribed to.
  unfoldable pub unwatch_begin : String → Shared D → Shared D × Option ℕ
  unwatch_begin symbol s = (
    record s { subscribed = HashMap.remove symbol s.subscribed },
    HashMap.get symbol s.subscribed,
  )

  -- `unwatch` from the answer of the `unsubscribe` closure on; `false` is an error of `send`.
  unfoldable pub unwatch_finish :
      String → Option ℕ → Option String → Bool → Shared D → Shared D × Bool
  unwatch_finish symbol none json sends s = (s, true)
  unwatch_finish symbol (some book) (some json) sends s =
      (record s { pending = HashMap.remove symbol s.pending }, sends)
  unwatch_finish symbol (some book) none sends s =
      (record s { subscribed = HashMap.insert symbol book s.subscribed }, true)

  -- The senders taken by `mem::take`, each sent the book, in the order in which they came.
  unfoldable pub broadcast : String → ℕ → Shared D → Option (Shared D)
  broadcast symbol book s = elim (HashMap.get symbol s.pending) [
    | none ↦ none
    | some txs ↦ some (record s {
      pending = HashMap.insert symbol [] s.pending;
      sent = s.sent ++ map (λ tx. (tx, book)) txs;
    })
  ]

pub record SubClient (D : Type 0) : Type 0 where
  pub shared : Shared D
  pub open shared use *
  pub connecting_id : ℕ

-- The client that `new` makes.
abbrev pub new_client : {D : Type 0} → SubClient D
new_client = record { shared = new; connecting_id = 4294967295 }

-- How `connect` goes on after its first piece.
pub data Dial : Type 0 where
  -- The socket is connected: `Ok` of this id.
  ready : ℕ → Dial
  -- Another task holds the socket: the call waits on its sender, to return this id.
  joins : ℕ → Dial
  -- This call holds the socket, and connects it under this id.
  dials : ℕ → Dial

abbrev pub u32_max : ℕ
u32_max = 4294967295

module _ {D : Type 0} where
  -- `connect` up to its first await. `busy` is whether the socket is borrowed, `connected` its
  -- state.
  unfoldable pub connect_begin : Bool → Bool → ℕ → SubClient D → SubClient D × Dial
  connect_begin true connected tx c = (
    record c { shared = record c.shared { connecting = c.connecting ++ tx ∷ [] } },
    joins c.connecting_id,
  )
  connect_begin false true tx c = (c, ready c.connecting_id)
  connect_begin false false tx c =
      let start : ℕ = if c.connecting_id == u32_max then 0 else c.connecting_id in
      (record c { connecting_id = inc32 start }, dials (inc32 start))

  -- `connect` from the result of `ws.connect()` on: the state, the senders that are told of
  -- success, and those that are dropped, whose receivers get an error. The call itself returns
  -- `Ok` of its id in both cases.
  unfoldable pub connect_end : Bool → SubClient D → SubClient D × List ℕ × List ℕ
  connect_end true c = (record c { shared = record c.shared { connecting = [] } }, c.connecting, [])
  connect_end false c =
      (record c { shared = record c.shared { connecting = [] } }, [], c.connecting)
