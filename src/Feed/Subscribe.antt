-- ===== src/Feed/Subscribe.antt =====
-- What the clients of Gate and Binance are opened with and what they send for a symbol: `new`, `subscribe`
-- and `unsubscribe` of src/exchange/gate/public/sub_client.rs and
-- src/exchange/binance/public/sub_client.rs. A message is the record of its JSON object; a time is an
-- `i64` by its 64 bits.
use Prim.Native.String.{◌++◌}
use arbexpert_backend.Base.{ℕ, ◌+◌, ◌%◌, ◌^◌, ◌≡◌, ap, String, List, [], ◌∷◌}
use arbexpert_backend.Symbol.{
  gate_normalize_symbol, binance_normalize_symbol, spot_symbol, future_symbol, IsAsset,
  normalize_pair,
}
use arbexpert_backend.Feed.{MarketType}

unfoldable pub gate_ws_url : MarketType → String
gate_ws_url MarketType.spot = "wss://api.gateio.ws/ws/v4/"
gate_ws_url MarketType.future = "wss://fx-ws.gateio.ws/v4/ws/usdt"

unfoldable pub binance_ws_url : MarketType → String
binance_ws_url MarketType.spot = "wss://stream.binance.com/ws"
binance_ws_url MarketType.future = "wss://fstream.binance.com/ws"

-- The limiter of a client's requests for snapshots, and what a request takes of it.
unfoldable pub binance_http_weight : MarketType → String × ℕ
binance_http_weight MarketType.spot = ("SPOT_HTTP_LIMITER", 2)
binance_http_weight MarketType.future = ("FUTURE_HTTP_LIMITER", 5)

pub record GateMessage : Type 0 where
  pub time : ℕ
  pub channel : String
  pub event : String
  pub payload : List String

unfoldable pub gate_channel : MarketType → String
gate_channel MarketType.spot = "spot.order_book_update"
gate_channel MarketType.future = "futures.order_book_update"

-- A message of Gate for a name.
abbrev pub gate_message : ℕ → ℕ → String → String → String → GateMessage
gate_message offset now channel event name = record {
  time = (now + offset) % 2 ^ 64;
  channel = channel;
  event = event;
  payload = name ∷ "100ms" ∷ [];
}

unfoldable pub gate_subscribe : MarketType → ℕ → ℕ → String → GateMessage
gate_subscribe market time_offset_ms now symbol = record {
  time = (now + time_offset_ms) % 2 ^ 64;
  channel = gate_channel market;
  event = "subscribe";
  payload = symbol ∷ "100ms" ∷ [];
}

unfoldable pub gate_unsubscribe : MarketType → ℕ → ℕ → String → GateMessage
gate_unsubscribe market time_offset_ms now symbol = record {
  time = (now + time_offset_ms) % 2 ^ 64;
  channel = gate_channel market;
  event = "unsubscribe";
  payload = symbol ∷ "100ms" ∷ [];
}

pub record BinanceMessage : Type 0 where
  pub method : String
  pub params : List String

module _ (to_lowercase : String → String) where
  abbrev pub depth_message : String → String → BinanceMessage
  depth_message method name = record {
    method = method;
    params = (to_lowercase name ++ "@depth@100ms") ∷ [];
  }

  unfoldable pub binance_subscribe : String → BinanceMessage
  binance_subscribe symbol = record {
    method = "SUBSCRIBE";
    params = (to_lowercase symbol ++ "@depth@100ms") ∷ [];
  }

  unfoldable pub binance_unsubscribe : String → BinanceMessage
  binance_unsubscribe symbol = record {
    method = "UNSUBSCRIBE";
    params = (to_lowercase symbol ++ "@depth@100ms") ∷ [];
  }

  -- Where neither asset's name has a `:` or a `/`: the spot pair and the future that the monitor watches
  -- of two assets are subscribed to at Gate by one name, and unsubscribed from by the same, each on
  -- the channel of its market; at Binance both by the stream of the two names joined.
  pub pair_subscriptions :
      (base quote : String) (offset now : ℕ)
      → IsAsset base
      → IsAsset quote
      → (gate_subscribe MarketType.spot offset now (gate_normalize_symbol (spot_symbol base quote))
          ≡ gate_message offset now "spot.order_book_update" "subscribe" (base ++ ("_" ++ quote)))
        × (gate_subscribe MarketType.future offset now
              (gate_normalize_symbol (future_symbol base quote))
            ≡ gate_message offset now "futures.order_book_update" "subscribe"
                (base ++ ("_" ++ quote)))
        × (gate_unsubscribe MarketType.spot offset now
              (gate_normalize_symbol (spot_symbol base quote))
            ≡ gate_message offset now "spot.order_book_update" "unsubscribe"
                (base ++ ("_" ++ quote)))
        × (gate_unsubscribe MarketType.future offset now
              (gate_normalize_symbol (future_symbol base quote))
            ≡ gate_message offset now "futures.order_book_update" "unsubscribe"
                (base ++ ("_" ++ quote)))
        × (binance_subscribe (binance_normalize_symbol (spot_symbol base quote))
            ≡ depth_message "SUBSCRIBE" (base ++ quote))
        × (binance_subscribe (binance_normalize_symbol (future_symbol base quote))
            ≡ depth_message "SUBSCRIBE" (base ++ quote))
        × (binance_unsubscribe (binance_normalize_symbol (spot_symbol base quote))
            ≡ depth_message "UNSUBSCRIBE" (base ++ quote))
        × (binance_unsubscribe (binance_normalize_symbol (future_symbol base quote))
            ≡ depth_message "UNSUBSCRIBE" (base ++ quote))
  unfolding gate_subscribe gate_unsubscribe gate_channel binance_subscribe binance_unsubscribe
  pair_subscriptions base quote offset now b q =
      let (gate_spot, gate_future, binance_spot, binance_future, _, _) =
        normalize_pair base quote b q in
      (
        ap (gate_subscribe MarketType.spot offset now) gate_spot,
        ap (gate_subscribe MarketType.future offset now) gate_future,
        ap (gate_unsubscribe MarketType.spot offset now) gate_spot,
        ap (gate_unsubscribe MarketType.future offset now) gate_future,
        ap binance_subscribe binance_spot,
        ap binance_subscribe binance_future,
        ap binance_unsubscribe binance_spot,
        ap binance_unsubscribe binance_future,
      )
