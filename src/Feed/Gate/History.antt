-- ===== src/Feed/Gate/History.antt =====
-- The check of `broadcast_update` that panics on a bid which no update announced never fails
-- (src/exchange/gate/public/sub_client.rs).
use arbexpert_backend.Base.{◌≡◌, refl, true, some, List, [], ◌∷◌, arith, if◌then◌else◌}
use arbexpert_backend.Std.BTreeMap.{
  Reverse, reverse, reverse_ord, BTreeMap, get, IsSorted, get-Above,
}
use arbexpert_backend.Std.HashSet
use arbexpert_backend.Std.HashSet.{contains-insert, contains-remove}
use arbexpert_backend.Decimal.{Decimal, decimal_ord, eq}
use arbexpert_backend.OrderBook.{
  OrderBook, OrderBookUpdate, removal_bid_failed, apply_level, apply_levels, apply_update,
}
use arbexpert_backend.OrderBook.Levels.{level_lookup, level-IsSorted}
use arbexpert_backend.OrderBook.Update.{IsBook, start_of, start-IsSorted, get-start}
use arbexpert_backend.Feed.Gate.{keep_history, all_known}

module _ {D : Type 0} ⦃d : Decimal D⦄ where
  -- Every bid price of the map is in the set.
  pub record Known (m : BTreeMap (Reverse D) D) (h : List D) : Type 0 where
    pub at : (p q : D) → get (reverse p) m ≡ some q → HashSet.contains p h ≡ true

  abbrev history_level : D → D → List D → List D
  history_level price qty h =
      if eq qty d.nil then HashSet.remove price h else HashSet.insert price h

  level-Known :
      (p q : D) (m : BTreeMap (Reverse D) D) (h : List D)
      → IsSorted m
      → Known m h
      → Known (apply_level reverse removal_bid_failed p q m).0 (history_level p q h)
  level-Known p q m h s k = record {
    at = λ p' q' e. ground (
      arith,
      k.at p' q',
      level_lookup reverse removal_bid_failed (reverse p') p q m s,
      contains-insert p' p h,
      contains-remove p' p h,
      d.order.cmp_eq p p',
      d.order.cmp_eq p' p,
      d.order.cmp_refl p,
      d.order.cmp_refl p',
    );
  }

  levels-Known :
      (es : List (D × D)) (m : BTreeMap (Reverse D) D) (h : List D)
      → IsSorted m
      → Known m h
      → Known (apply_levels reverse removal_bid_failed es m).0 (keep_history es h)
  unfolding apply_levels keep_history
  levels-Known [] m h s k = k
  levels-Known ((p, q) ∷ es) m h s k =
      levels-Known es (apply_level reverse removal_bid_failed p q m).0 (history_level p q h)
        (level-IsSorted reverse removal_bid_failed p q m s) (level-Known p q m h s k)

  -- An update keeps the history in step with the bids.
  pub apply_update-Known :
      (u : OrderBookUpdate D) (b : OrderBook D) (h : List D)
      → IsBook b
      → Known b.bids h
      → Known (apply_update u b).0.bids (keep_history u.bids h)
  unfolding apply_update
  apply_update-Known u b h s k =
      levels-Known u.bids (start_of u b.bids) h (start-IsSorted u b.bids s.bids_sorted)
        (record { at = λ p q e. ground (arith, k.at p q, get-start u (reverse p) b.bids) })

  Known-tail :
      (p q : D) (m : BTreeMap (Reverse D) D) (h : List D)
      → IsSorted ((reverse p, q) ∷ m)
      → Known ((reverse p, q) ∷ m) h
      → Known m h
  unfolding get
  Known-tail p q m h s k = record {
    at = λ p' q' e. ground (
      arith,
      k.at p' q',
      get-Above (reverse p) (reverse p') q' m s.0 e,
      d.order.cmp_eq p p',
      d.order.cmp_refl p,
    );
  }

  -- The check passes on a history that is in step.
  pub Known-all_known :
      (m : BTreeMap (Reverse D) D) (h : List D) → IsSorted m → Known m h → all_known m h ≡ true
  unfolding all_known get
  Known-all_known [] h s k = refl
  Known-all_known ((reverse p, q) ∷ m) h s k =
      ground (arith, k.at p q, d.order.cmp_refl p, Known-all_known m h s.1 (Known-tail p q m h s k))
