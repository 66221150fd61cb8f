-- ===== src/Workers/Assign.antt =====
-- That a symbol has a worker (src/main.rs).
use arbexpert_backend.Base.{
  ℕ, ◌<◌, ◌%◌, ◌≡◌, refl, sym, subst, [], ◌∷◌, ◌++◌, inc32, Bool-cases, String, true, false, none,
  some, arith, eq_iff, Option-cases, inl, inr, str_eq,
}
use arbexpert_backend.Std.HashMap
use arbexpert_backend.Std.HashMap.{HashMap}
use arbexpert_backend.Std.Text.{replace}
use arbexpert_backend.Workers.{
  GlobalState, has_channel, assign, send_to, monitor_symbol, start_arbitrage,
}

-- Each processor has its worker, and each symbol one of them.
pub record IsStaffed (cpus : ℕ) (s : GlobalState) : Type 0 where
  pub workers : (id : ℕ) → id < cpus → has_channel id s.worker_channels ≡ true
  pub symbols : (k : String) (id : ℕ) → HashMap.get k s.symbol_map ≡ some id → id < cpus

mod_lt : (n cpus : ℕ) → 0 < cpus → n % cpus < cpus
mod_lt n cpus h = ground arith

insert_lt :
    (cpus : ℕ) (symbol k : String) (fresh id : ℕ) (m : HashMap ℕ)
    → fresh < cpus
    → ((i : ℕ) → HashMap.get k m ≡ some i → i < cpus)
    → HashMap.get k (HashMap.insert symbol fresh m) ≡ some id
    → id < cpus
insert_lt cpus symbol k fresh id m f h g = elim (Bool-cases (str_eq symbol k)) [
  | inl e ↦ ground (arith, e, f, g, HashMap.get-insert k symbol fresh m)
  | inr e ↦ h id (ground (arith, e, g, HashMap.get-insert k symbol fresh m))
]

monitor_known :
    (cpus : ℕ) (symbol : String) (id : ℕ) (s : GlobalState)
    → HashMap.get symbol s.symbol_map ≡ some id
    → has_channel id s.worker_channels ≡ true
    → monitor_symbol cpus symbol s ≡ (record s { sent = s.sent ++ (id, symbol) ∷ [] }, true)
unfolding monitor_symbol assign send_to
monitor_known cpus symbol id s e w = ground (arith, e, w)

monitor_new :
    (cpus : ℕ) (symbol : String) (s : GlobalState)
    → HashMap.get symbol s.symbol_map ≡ none
    → has_channel (s.next_worker % cpus) s.worker_channels ≡ true
    → monitor_symbol cpus symbol s ≡ (
      record s {
        next_worker = inc32 s.next_worker;
        symbol_map = HashMap.insert symbol (s.next_worker % cpus) s.symbol_map;
        sent = s.sent ++ (s.next_worker % cpus, symbol) ∷ [];
      },
      true,
    )
unfolding monitor_symbol assign send_to
monitor_new cpus symbol s e w = ground (arith, e, w)

-- A request for the symbol goes out, to a worker with a channel.
pub record Sends (cpus : ℕ) (symbol : String) (s t : GlobalState) : Type 0 where
  pub worker : ℕ
  pub sent : t.sent ≡ s.sent ++ (worker, symbol) ∷ []
  pub has_worker : has_channel worker s.worker_channels ≡ true
  pub channels : t.worker_channels ≡ s.worker_channels
  pub staffed : IsStaffed cpus t

sent_state :
    (cpus : ℕ) (symbol : String) (s t : GlobalState)
    → monitor_symbol cpus symbol s ≡ (t, true)
    → Sends cpus symbol s t
    → Sends cpus symbol s (monitor_symbol cpus symbol s).0
sent_state cpus symbol s t e h = subst (λ r. Sends cpus symbol s r.0) (sym e) h

-- Where each processor has its worker and each symbol one of them: monitoring a symbol sends its
-- request, and leaves the state so.
pub monitor_symbol-Sends :
    (cpus : ℕ) (symbol : String) (s : GlobalState)
    → 0 < cpus
    → IsStaffed cpus s
    → Sends cpus symbol s (monitor_symbol cpus symbol s).0
monitor_symbol-Sends cpus symbol s p h = elim (Option-cases (HashMap.get symbol s.symbol_map)) [
  | inr (id, e) ↦
      let known = h.workers id (h.symbols symbol id e) in
      sent_state cpus symbol s (record s { sent = s.sent ++ (id, symbol) ∷ [] })
        (monitor_known cpus symbol id s e known)
        (record {
          worker = id;
          sent = refl;
          has_worker = known;
          channels = refl;
          staffed = record { workers = h.workers; symbols = h.symbols };
        })
  | inl e ↦
      let id = s.next_worker % cpus in
      let small = mod_lt s.next_worker cpus p in
      sent_state cpus symbol s
        (record s {
          next_worker = inc32 s.next_worker;
          symbol_map = HashMap.insert symbol id s.symbol_map;
          sent = s.sent ++ (id, symbol) ∷ [];
        })
        (monitor_new cpus symbol s e (h.workers id small))
        (record {
          worker = id;
          sent = refl;
          has_worker = h.workers id small;
          channels = refl;
          staffed = record {
            workers = h.workers;
            symbols = λ k i g. insert_lt cpus symbol k id i s.symbol_map small (h.symbols k) g;
          };
        })
]

-- `start_arbitrage` of a symbol without a worker, once as many symbols were given workers as there
-- are channels, finds no worker, and neither does a later monitoring of the symbol.
pub start_arbitrage_strands :
    (name : String) (cpus : ℕ) (s : GlobalState)
    → HashMap.get (replace b'-' "/" name) s.symbol_map ≡ none
    → has_channel s.next_worker s.worker_channels ≡ false
    → ((start_arbitrage name s).1 ≡ false)
      × ((monitor_symbol cpus (replace b'-' "/" name) (start_arbitrage name s).0).1 ≡ false)
unfolding start_arbitrage monitor_symbol assign send_to
start_arbitrage_strands name cpus s e h =
    let symbol = replace b'-' "/" name in
    ground (
      arith,
      e,
      h,
      HashMap.get-insert symbol symbol s.next_worker s.symbol_map,
      eq_iff symbol symbol,
    )
