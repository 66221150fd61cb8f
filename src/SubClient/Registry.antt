-- ===== src/SubClient/Registry.antt =====
-- The two maps of a `SubClient` (src/base/exchange/sub_client.rs): `watch` unwraps the entry of
-- `pending` for a symbol that it finds in `subscribed`.
use arbexpert_backend.Base.{
  ℕ, String, ◌≡◌, ◌≢◌, refl, Bool, true, false, none, some, List, [], ◌∷◌, ◌++◌, is_some, arith,
  eq_iff, Option-cases, inl, inr, not, subst,
}
use arbexpert_backend.Std.HashMap
use arbexpert_backend.Std.HashMap.{HashMap, get-insert, get-remove, get-or_insert}
use arbexpert_backend.SubClient.{Shared, new, has_symbol, subscribe_new, register}

module _ {D : Type 0} where
  -- Every symbol that is subscribed has an entry in `pending`.
  pub record IsCovered (s : Shared D) : Type 0 where
    pub covered :
        (k : String)
        → is_some (HashMap.get k s.subscribed) ≡ true
        → is_some (HashMap.get k s.pending) ≡ true

  pub new-IsCovered : IsCovered new
  unfolding new HashMap.get
  new-IsCovered = record { covered = λ k h. cc }

  -- The senders that wait for the symbol.
  abbrev pub waiting : String → Shared D → List ℕ
  waiting symbol s = elim (HashMap.get symbol s.pending) [ none ↦ [] | some txs ↦ txs ]

  -- What the first piece of `watch` did, `t` being the state that it left.
  pub record Registers (symbol : String) (tx : ℕ) (s t : Shared D) : Type 0 where
    pub queued : HashMap.get symbol t.pending ≡ some (waiting symbol s ++ tx ∷ [])
    pub subscribes :
        HashMap.get symbol t.subscribed
        ≡ some (elim (HashMap.get symbol s.subscribed) [ none ↦ s.next_book | some r ↦ r ])
    pub others_pending :
        (k : String) → symbol ≢ k → HashMap.get k t.pending ≡ HashMap.get k s.pending
    pub others_subscribed :
        (k : String) → symbol ≢ k → HashMap.get k t.subscribed ≡ HashMap.get k s.subscribed

  after_push : String → ℕ → List ℕ → Shared D → Shared D
  after_push symbol tx txs s = record s {
    pending = HashMap.insert symbol (txs ++ tx ∷ []) s.pending;
  }

  register_known :
      (symbol : String) (tx r : ℕ) (txs : List ℕ) (s : Shared D)
      → HashMap.get symbol s.subscribed ≡ some r
      → HashMap.get symbol s.pending ≡ some txs
      → (register symbol tx s ≡ some (after_push symbol tx txs s, false))
        × Registers symbol tx s (after_push symbol tx txs s)
  unfolding register after_push
  register_known symbol tx r txs s e f = (
    ground arith,
    record {
      queued =
          ground (arith, get-insert symbol symbol (txs ++ tx ∷ []) s.pending, eq_iff symbol symbol);
      subscribes = ground arith;
      others_pending =
          λ k n. ground (arith, get-insert k symbol (txs ++ tx ∷ []) s.pending, eq_iff symbol k);
      others_subscribed = λ k n. refl;
    },
  )

  register_first :
      (symbol : String) (tx : ℕ) (s : Shared D)
      → HashMap.get symbol s.subscribed ≡ none
      → let t = after_push symbol tx (waiting symbol s) (subscribe_new symbol s) in
        (register symbol tx s ≡ some (t, true)) × Registers symbol tx s t
  unfolding register after_push subscribe_new
  register_first symbol tx s e =
      let m = HashMap.or_insert symbol [] s.pending in
      let txs = waiting symbol s in
      (
        ground (arith, get-or_insert symbol symbol [] s.pending, eq_iff symbol symbol),
        record {
          queued =
              ground (arith, get-insert symbol symbol (txs ++ tx ∷ []) m, eq_iff symbol symbol);
          subscribes =
              ground
                (arith, get-insert symbol symbol s.next_book s.subscribed, eq_iff symbol symbol);
          others_pending = λ k n. ground (
            arith,
            get-insert k symbol (txs ++ tx ∷ []) m,
            get-or_insert k symbol [] s.pending,
            eq_iff symbol k,
          );
          others_subscribed =
              λ k n. ground (arith, get-insert k symbol s.next_book s.subscribed, eq_iff symbol k);
        },
      )

  -- In a state whose maps agree the first piece of `watch` does not panic. It is the first call
  -- exactly if the symbol is not subscribed, it queues its sender behind those that wait, and it
  -- leaves the entries of the other symbols alone.
  pub register_lem :
      (symbol : String) (tx : ℕ) (s : Shared D)
      → IsCovered s
      → (t : Shared D) × (register symbol tx s ≡ some (t, not (has_symbol symbol s)))
        × Registers symbol tx s t
  unfolding has_symbol
  register_lem symbol tx s h = elim (Option-cases (HashMap.get symbol s.subscribed)) [
    | inl e ↦
        let (r, g) = register_first symbol tx s e in
        (after_push symbol tx (waiting symbol s) (subscribe_new symbol s), rw e r, g)
    | inr (b, e) ↦ elim (Option-cases (HashMap.get symbol s.pending)) [
      | inl f ↦ absurd (ground (arith, h.covered symbol))
      | inr (txs, f) ↦
          let (r, g) = register_known symbol tx b txs s e f in
          (after_push symbol tx txs s, rw e r, g)
    ]
  ]

  pub Registers-IsCovered :
      (symbol : String) (tx : ℕ) (s t : Shared D)
      → IsCovered s
      → Registers symbol tx s t
      → IsCovered t
  Registers-IsCovered symbol tx s t h g = record {
    covered = λ k.
        ground (
          arith,
          h.covered k,
          g.queued,
          eq_iff symbol k,
          g.others_pending k,
          g.others_subscribed k,
        );
  }

  -- The same, of a state that `register` returned.
  pub register-Registers :
      (symbol : String) (tx : ℕ) (s t : Shared D) (first : Bool)
      → IsCovered s
      → register symbol tx s ≡ some (t, first)
      → Registers symbol tx s t × (first ≡ not (has_symbol symbol s))
  register-Registers symbol tx s t first h e =
      let (u, r, g) = register_lem symbol tx s h in
      let same : u ≡ t = cc in (subst (Registers symbol tx s) same g, cc)

  -- Where the maps disagree on a symbol, `watch` panics.
  pub register_uncovered :
      (symbol : String) (tx r : ℕ) (s : Shared D)
      → HashMap.get symbol s.subscribed ≡ some r
      → HashMap.get symbol s.pending ≡ none
      → register symbol tx s ≡ none
  unfolding register
  register_uncovered symbol tx r s e f = ground arith
