-- ===== src/Tests/Client.antt =====
-- The theorems on the shared web socket at a client that watches one symbol.
use arbexpert_backend.Base.{ℕ, ◌≡◌, refl, String, true, false, not, none, some, [], ◌∷◌, All}
use arbexpert_backend.Std.HashMap
use arbexpert_backend.Std.Text.{contains}
use arbexpert_backend.OrderBook.{empty_book}
use arbexpert_backend.SubClient
use arbexpert_backend.SubClient.{
  Shared, SubClient, new, has_symbol, register, push_sender, subscribe_new, fails, subscribe_answer,
  unwatch_begin, unwatch_finish, broadcast, u32_max, connect_begin, subscribed_count,
}
use arbexpert_backend.SubClient.Registry.{
  IsCovered, new-IsCovered, Registers, Registers-IsCovered, register-Registers,
}
use arbexpert_backend.SubClient.Calls.{unwatch_race, watch_send_failure, watch_rolls_back}
use arbexpert_backend.SubClient.Tasks.{
  Tasks, start, suspend, resume, Reach, here, next, registers, suspends, resumes,
}
use arbexpert_backend.SubClient.Tasks.Safety.{watch_never_panics}
use arbexpert_backend.WatchPool.{Clients}
use arbexpert_backend.WatchPool.Crowded.{select_all, crowded}

-- The client after the first `watch` of a symbol, by the call with the sender 7.
abbrev btc : String
btc = "BTC_USDT"

abbrev watched : Shared ℕ
watched = record {
  books = λ r. SubClient.at_cell (λ n. empty_book) 0 empty_book r;
  next_book = 1;
  subscribed = (btc, 0) ∷ [];
  pending = (btc, 7 ∷ []) ∷ [];
  connecting = [];
  sent = [];
}

register-btc : register btc 7 new ≡ some (watched, true)
unfolding register has_symbol push_sender subscribe_new new HashMap.get HashMap.insert
    HashMap.or_insert
register-btc = refl

watched-IsCovered : IsCovered watched
watched-IsCovered =
    Registers-IsCovered btc 7 new watched new-IsCovered
      (register-Registers btc 7 new watched true new-IsCovered register-btc).0

-- An `unwatch` of the symbol then runs up to its await, and goes on once its closure has failed.
abbrev watching : Tasks ℕ
watching = record { shared = watched; suspended = [] }

abbrev unwatching : Tasks ℕ
unwatching = resume btc 0 none true (suspend btc watching)

none_suspended : HashMap.get {V = ℕ} btc [] ≡ none
unfolding HashMap.get
none_suspended = refl

btc_suspended : HashMap.get btc (suspend btc watching).suspended ≡ some 0
unfolding suspend unwatch_begin HashMap.get HashMap.insert
btc_suspended = refl

unwatching-Reach : Reach start unwatching
unwatching-Reach =
    next
      (next (next here (registers btc 7 watched true none_suspended register-btc)) (suspends btc))
      (resumes btc 0 none true btc_suspended)

watch_never_panics_example :
    (t : Shared ℕ) × (register btc 8 unwatching.shared
      ≡ some (t, not (has_symbol btc unwatching.shared)))
    × Registers btc 8 unwatching.shared t
watch_never_panics_example = watch_never_panics unwatching btc 8 unwatching-Reach

abbrev asks_again : Shared ℕ
asks_again = record {
  books = λ r. SubClient.at_cell watched.books 1 empty_book r;
  next_book = 2;
  subscribed = (btc, 1) ∷ [];
  pending = (btc, 7 ∷ 8 ∷ []) ∷ [];
  connecting = [];
  sent = [];
}

unwatch_race_example :
    register btc 9 (unwatch_finish btc (unwatch_begin btc watched).1 (some "{}") true asks_again).0
    ≡ none
unfolding register has_symbol push_sender subscribe_new unwatch_begin HashMap.get HashMap.insert
    HashMap.or_insert HashMap.remove
unwatch_race_example =
    unwatch_race btc "{}" 8 9 true true watched asks_again watched-IsCovered refl refl

watch_send_failure_example :
    (u : Shared ℕ) × ((subscribe_answer btc true (some "{}") false watched).1 ≡ fails)
    × (register btc 8 (subscribe_answer btc true (some "{}") false watched).0 ≡ some (u, false))
watch_send_failure_example = watch_send_failure btc "{}" 7 8 new watched new-IsCovered register-btc

watch_rolls_back_example :
    let (u, outcome) = subscribe_answer btc true none true watched in
    (outcome ≡ fails)
    × (HashMap.get "ETH_USDT" u.subscribed ≡ none)
    × (HashMap.get "ETH_USDT" u.pending ≡ none)
unfolding HashMap.get new
watch_rolls_back_example =
    watch_rolls_back btc 7 true new watched "ETH_USDT" new-IsCovered register-btc

abbrev told : Shared ℕ
told = record watched { pending = (btc, []) ∷ []; sent = (7, 0) ∷ [] }

-- An exchange with two clients for the spot market, and nothing watched any more.
abbrev exchange : Clients ℕ
exchange = record {
  client = λ c. new;
  next_client = 2;
  spot_clients = 0 ∷ 1 ∷ [];
  future_clients = [];
}

crowded_example :
    All (λ c. c ≡ 2) (select_all (λ s. s) ("BTC/USDT:USDT" ∷ "ETH/USDT:USDT" ∷ []) exchange)
unfolding contains
crowded_example =
    crowded (λ s. s) true ("BTC/USDT:USDT" ∷ "ETH/USDT:USDT" ∷ []) exchange refl (refl, (refl, tt))
