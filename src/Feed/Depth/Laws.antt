-- ===== src/Feed/Depth/Laws.antt =====
-- Which snapshot the two loops settle for, and when they give up
-- (src/exchange/gate/public/sub_client.rs, src/exchange/binance/public/sub_client.rs).
use arbexpert_backend.Base.{
  ℕ, zero, suc, ◌+◌, ◌≤◌, ◌<◌, ◌≡◌, ◌≢◌, refl, ◌⊎◌, inl, inr, Option, none, some, Option-cases,
  arith, Bool-cases, ltb, subst,
}
use native.Mathlib.Decide.{ℕ_discrete}
use arbexpert_backend.Decimal.{Decimal}
use arbexpert_backend.OrderBook.{OrderBook, empty_book}
use arbexpert_backend.Feed.Depth.{
  Snapshot, to_book, Depth, got, failed, stuck, gate_loop, process_gate_depth, binance_loop,
  process_binance_depth,
}

module _ {D : Type 0} ⦃d : Decimal D⦄ (initial : ℕ) (answers : ℕ → Option (Snapshot D)) where
  -- The answer to the i-th request is a snapshot from before the message that asked for one.
  abbrev pub Stale : ℕ → Type 0
  Stale i = (s : Snapshot D) × (answers i ≡ some s) × (s.id < initial)

  -- The i-th answer is the first that is recent enough, of those from n on, and gives the book.
  pub record Fresh (n i : ℕ) (b : OrderBook D) : Type 0 where
    pub snapshot : Snapshot D
    pub answered : answers i ≡ some snapshot
    pub recent : initial ≤ snapshot.id
    pub book : b ≡ to_book snapshot
    pub from : n ≤ i
    pub earlier : (j : ℕ) → n ≤ j → j < i → Stale j

  id-to_book : (s : Snapshot D) → (to_book s).update_id ≡ s.id
  unfolding to_book
  id-to_book s = refl

  Fresh-earlier : (n i : ℕ) (b : OrderBook D) → Stale n → Fresh (n + 1) i b → Fresh n i b
  Fresh-earlier n i b stale f = record {
    snapshot = f.snapshot;
    answered = f.answered;
    recent = f.recent;
    book = f.book;
    from = omega arith;
    earlier = λ j lo hi. elim (ℕ_discrete n j) [
      | yes here ↦ subst Stale here stale
      | no further ↦ f.earlier j (omega arith) hi
    ];
  }

  Fresh-here :
      (n : ℕ) (s : Snapshot D) (b : OrderBook D)
      → answers n ≡ some s
      → initial ≤ s.id
      → b ≡ to_book s
      → Fresh n n b
  Fresh-here n s b a recent same = record {
    snapshot = s;
    answered = a;
    recent = recent;
    book = same;
    from = omega arith;
    earlier = λ j lo hi. absurd (omega arith);
  }

  -- How a loop ends well: at once, or by an answer among the next `left`.
  abbrev Settles : ℕ → ℕ → OrderBook D → OrderBook D → Type 0
  Settles left n book b =
      ((initial ≤ book.update_id) × (b ≡ book))
      ⊎ ((i : ℕ) × (book.update_id < initial) × (i < n + left) × Fresh n i b)

  Settles-next :
      (left n : ℕ) (book b : OrderBook D) (s : Snapshot D)
      → book.update_id < initial
      → answers n ≡ some s
      → Settles left (n + 1) (to_book s) b
      → Settles (suc left) n book b
  Settles-next left n book b s more a (inl (recent, same)) =
      inr (n, more, omega arith, Fresh-here n s b a (omega (arith, id-to_book s)) same)
  Settles-next left n book b s more a (inr (i, stale, hi, fresh)) =
      inr (i, more, omega arith, Fresh-earlier n i b (s, a, omega (arith, id-to_book s)) fresh)

  gate_loop-got :
      (left n : ℕ) (book b : OrderBook D)
      → gate_loop left initial answers n book ≡ got b
      → Settles left n book b
  unfolding gate_loop
  gate_loop-got zero n book b e = inl (ground arith, ground arith)
  gate_loop-got (suc left) n book b e = elim (Bool-cases (ltb book.update_id initial)) [
    | inr enough ↦ inl (ground arith, ground arith)
    | inl more ↦ elim (Option-cases (answers n)) [
      | inl no_answer ↦ absurd (ground arith)
      | inr (s, a) ↦
          Settles-next left n book b s (ground arith) a
            (gate_loop-got left (n + 1) (to_book s) b (ground arith))
    ]
  ]

  -- How a loop fails: an answer that is none after stale ones, or stale answers to all its tries.
  abbrev pub GivesUp : ℕ → ℕ → Type 0
  GivesUp left n =
      ((i : ℕ) × (n ≤ i)
        × (i < n + left)
        × (answers i ≡ none)
        × ((j : ℕ) → n ≤ j → j < i → Stale j))
      ⊎ ((j : ℕ) → n ≤ j → j < n + left → Stale j)

  GivesUp-next : (left n : ℕ) → Stale n → GivesUp left (n + 1) → GivesUp (suc left) n
  GivesUp-next left n stale (inl (i, lo, hi, a, before)) = inl (
    i,
    omega arith,
    omega arith,
    a,
    λ j lo' hi'. elim (ℕ_discrete n j) [
      | yes here ↦ subst Stale here stale
      | no further ↦ before j (omega arith) hi'
    ],
  )
  GivesUp-next left n stale (inr all) = inr (λ j lo hi. elim (ℕ_discrete n j) [
    | yes here ↦ subst Stale here stale
    | no further ↦ all j (omega arith) (omega arith)
  ])

  gate_loop-failed :
      (left n : ℕ) (book : OrderBook D)
      → gate_loop left initial answers n book ≡ failed
      → (book.update_id < initial) × GivesUp left n
  unfolding gate_loop
  gate_loop-failed zero n book e = (ground arith, inr (λ j lo hi. absurd (omega arith)))
  gate_loop-failed (suc left) n book e = elim (Bool-cases (ltb book.update_id initial)) [
    | inr enough ↦ absurd (ground arith)
    | inl more ↦ elim (Option-cases (answers n)) [
      | inl no_answer ↦ (
        ground arith,
        inl (n, omega arith, omega arith, no_answer, λ j lo hi. absurd (omega arith)),
      )
      | inr (s, a) ↦
          let (stale, later) = gate_loop-failed left (n + 1) (to_book s) (ground arith) in
          (ground arith, GivesUp-next left n (s, a, omega (arith, id-to_book s)) later)
    ]
  ]

  gate_loop-ends : (left n : ℕ) (book : OrderBook D) → gate_loop left initial answers n book ≢ stuck
  unfolding gate_loop
  gate_loop-ends zero n book = ground arith
  gate_loop-ends (suc left) n book = elim (Option-cases (answers n)) [
    | inl no_answer ↦ ground arith
    | inr (s, a) ↦ ground (arith, gate_loop-ends left (n + 1) (to_book s))
  ]

  -- For a message with an id, Gate's loop makes five requests at most. It returns the first
  -- snapshot among their answers that is not older than the message, all before it being older; it
  -- fails if a request fails before that, or if all five snapshots are older; and it always ends.
  pub gate_depth_exact :
      0 < initial
      → ((b : OrderBook D) × (i : ℕ) × (i < 5)
          × (process_gate_depth initial answers ≡ got b)
          × Fresh 0 i b)
        ⊎ ((process_gate_depth initial answers ≡ failed) × GivesUp 5 0)
  unfolding process_gate_depth
  gate_depth_exact pos = ends (gate_loop 5 initial answers 0 empty_book) refl
    where
      ends :
          (r : Depth D)
          → gate_loop 5 initial answers 0 empty_book ≡ r
          → ((b : OrderBook D) × (i : ℕ) × (i < 5) × (r ≡ got b) × Fresh 0 i b)
            ⊎ ((r ≡ failed) × GivesUp 5 0)
      ends (got b) e = elim (gate_loop-got 5 0 empty_book b e) [
        | inl (at_once, _) ↦ absurd (omega arith)
        | inr (i, _, hi, f) ↦ inl (b, i, omega arith, refl, f)
      ]
      ends failed e = inr (refl, (gate_loop-failed 5 0 empty_book e).1)
      ends stuck e = absurd (gate_loop-ends 5 0 empty_book e)

  binance_loop-finds :
      (fuel n i : ℕ) (last s : Snapshot D)
      → answers i ≡ some s
      → initial ≤ s.id
      → ((j : ℕ) → n ≤ j → j < i → Stale j)
      → n ≤ i
      → i + 1 < n + fuel
      → last.id < initial
      → binance_loop fuel initial answers n last ≡ got (to_book s)
  unfolding binance_loop
  binance_loop-finds zero n i last s a recent before lo hi more = absurd (omega arith)
  binance_loop-finds (suc zero) n i last s a recent before lo hi more = absurd (omega arith)
  binance_loop-finds (suc (suc fuel)) n i last s a recent before lo hi more =
      elim (ℕ_discrete n i) [
        | yes here ↦ let now : answers n ≡ some s = cc in ground arith
        | no further ↦
            let (t, b, stale) = before n (omega arith) (omega arith) in
            ground (
              arith,
              binance_loop-finds (suc fuel) (n + 1) i t s a recent
                  (λ j lo' hi'. before j (omega arith) hi') (omega arith) (omega arith) stale,
            )
      ]

  -- For a message with an id: however many older snapshots come first, Binance's loop, which has
  -- no bound, returns the first that is not older than the message, with fuel for two rounds more
  -- than there are older ones.
  pub binance_depth_finds :
      (fuel i : ℕ) (s : Snapshot D)
      → 0 < initial
      → answers i ≡ some s
      → initial ≤ s.id
      → ((j : ℕ) → j < i → Stale j)
      → i + 1 < fuel
      → process_binance_depth fuel initial answers ≡ got (to_book s)
  unfolding process_binance_depth
  binance_depth_finds fuel i s pos a recent before hi =
      binance_loop-finds fuel 0 i _ s a recent (λ j _ hi'. before j hi') (omega arith) (omega arith)
        pos
