-- ===== src/Feed/Sync.antt =====
-- Streams of updates and the snapshots that they follow on.
use arbexpert_backend.Base.{
  ℕ, ◌+◌, ◌^◌, ◌≤◌, ◌<◌, ◌≡◌, Bool, true, false, not, ◌&&◌, none, some, List, [], ◌∷◌, ◌++◌, arith,
  All, Bool-cases, inl, inr, subst,
}
use native.Mathlib.Decide.{dec_le}
use arbexpert_backend.OrderBook.{OrderBookUpdate}
use arbexpert_backend.Feed.{gap, follows, from_first}

module _ {D : Type 0} where
  -- Each update continues the one before it, the first a book with the given id.
  abbrev pub chain : ℕ → List (OrderBookUpdate D) → Bool
  chain id [] = true
  chain id (u ∷ us) = not (gap id u.first_update_id u.last_update_id) && chain u.last_update_id us

  abbrev pub HasIds : OrderBookUpdate D → Type 0
  HasIds u =
      (u.first_update_id ≤ u.last_update_id)
      × (0 < u.last_update_id)
      × (u.last_update_id + 1 < 2 ^ 64)

  -- A stream without holes, as the exchange sends it: each update begins right behind the last.
  abbrev pub Contiguous : List (OrderBookUpdate D) → Type 0
  Contiguous [] = Unit {0}
  Contiguous (u ∷ []) = HasIds u
  Contiguous (u ∷ v ∷ us) =
      HasIds u × (v.first_update_id ≡ u.last_update_id + 1) × Contiguous (v ∷ us)

  Contiguous-head :
      (u : OrderBookUpdate D) (us : List (OrderBookUpdate D)) → Contiguous (u ∷ us) → HasIds u
  Contiguous-head u [] h = h
  Contiguous-head u (v ∷ us) h = h.0

  Contiguous-tail :
      (u : OrderBookUpdate D) (us : List (OrderBookUpdate D)) → Contiguous (u ∷ us) → Contiguous us
  Contiguous-tail u [] h = tt
  Contiguous-tail u (v ∷ us) h = h.2

  -- A stream without holes whose first update follows on a snapshot is a chain from it.
  Contiguous-chain :
      (id : ℕ) (u : OrderBookUpdate D) (us : List (OrderBookUpdate D))
      → Contiguous (u ∷ us)
      → u.first_update_id ≤ id + 1
      → id < u.last_update_id
      → chain id (u ∷ us) ≡ true
  Contiguous-chain id u [] h p q = ground arith
  Contiguous-chain id u (v ∷ us) h p q =
      let next = Contiguous-head v us h.2 in
      ground (arith, Contiguous-chain u.last_update_id v us h.2 (omega arith) (omega arith))

  -- What the search of the buffer found: `rest`, with the updates before it.
  pub record Splits (id : ℕ) (us rest : List (OrderBookUpdate D)) : Type 0 where
    pub old : List (OrderBookUpdate D)
    pub split : us ≡ old ++ rest
    -- Those before are wholly in the snapshot.
    pub contained : All (λ u. u.last_update_id ≤ id) old
    pub chained : chain id rest ≡ true

  from_first_late :
      (id : ℕ) (u : OrderBookUpdate D) (us : List (OrderBookUpdate D))
      → id + 1 < 2 ^ 64
      → Contiguous (u ∷ us)
      → id + 1 < u.first_update_id
      → from_first id (u ∷ us) ≡ none
  unfolding from_first
  from_first_late id u [] b h p = ground arith
  from_first_late id u (v ∷ us) b h p = ground (arith, from_first_late id v us b h.2 (omega arith))

  follows_or_old :
      (id : ℕ) (u : OrderBookUpdate D)
      → id + 1 < 2 ^ 64
      → u.first_update_id ≤ id + 1
      → follows id u ≡ false
      → u.last_update_id ≤ id
  follows_or_old id u b h e = ground arith

  -- The search of a stream without holes skips only what the snapshot contains, and what it finds
  -- continues the snapshot.
  pub from_first-Splits :
      (id : ℕ) (us rest : List (OrderBookUpdate D))
      → id + 1 < 2 ^ 64
      → Contiguous us
      → from_first id us ≡ some rest
      → Splits id us rest
  unfolding from_first
  from_first-Splits id [] rest b h e = cc
  from_first-Splits id (u ∷ us) rest b h e = elim (dec_le u.first_update_id (id + 1)) [
    | no late ↦ absurd (ground (arith, from_first_late id u us b h (omega arith)))
    | yes soon ↦ elim (Bool-cases (follows id u)) [
      | inl f ↦ record {
        old = [];
        split = ground arith;
        contained = tt;
        chained =
            let here : rest ≡ u ∷ us = ground arith in
            rw here (Contiguous-chain id u us h soon (ground arith));
      }
      | inr f ↦
          let later = from_first-Splits id us rest b (Contiguous-tail u us h) (ground arith) in
          record {
            old = u ∷ later.old;
            split = ground (arith, later.split);
            contained = (follows_or_old id u b soon f, later.contained);
            chained = later.chained;
          }
    ]
  ]

  -- The id of a book at the end of a chain that starts from it.
  unfoldable pub last_id : ℕ → List (OrderBookUpdate D) → ℕ
  last_id id [] = id
  last_id id (u ∷ us) = last_id u.last_update_id us

  pub from_first-All :
      (P : OrderBookUpdate D → Type 0) (id : ℕ) (us rest : List (OrderBookUpdate D))
      → All P us
      → from_first id us ≡ some rest
      → All P rest
  unfolding from_first
  from_first-All P id [] rest h e = cc
  from_first-All P id (u ∷ us) rest h e = elim (Bool-cases (follows id u)) [
    | inl f ↦ let here : u ∷ us ≡ rest = ground arith in subst (All P) here h
    | inr f ↦ from_first-All P id us rest h.1 (ground arith)
  ]

  pub Contiguous-All : (us : List (OrderBookUpdate D)) → Contiguous us → All HasIds us
  Contiguous-All [] h = tt
  Contiguous-All (u ∷ us) h = (Contiguous-head u us h, Contiguous-All us (Contiguous-tail u us h))
