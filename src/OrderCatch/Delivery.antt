-- ===== src/OrderCatch/Delivery.antt =====
-- That `next` loses no order (src/exchange/catch.rs).
use arbexpert_backend.Base.{
  ℕ, zero, suc, ◌+◌, ◌-◌, ◌<◌, ◌^◌, ◌≡◌, refl, sym, ap, ap₂, ◌∙◌, true, false, List, [], ◌∷◌, ◌++◌,
  length, arith, ltb, inc64,
}
use mathlib.Core.List.{append-nil, append_assoc}
use arbexpert_backend.OrderCatch.{OrderCatchState, CatchReturn, new_state, receive, newer, next_end}

inc : (n k : ℕ) → n + suc k < 2 ^ 64 → inc64 n ≡ n + 1
inc n k h = omega (arith, h)

minus_zero : (n : ℕ) → n - 0 ≡ n
minus_zero n = omega arith

module _ {O : Type 0} where
  -- The task's loop over the orders that come.
  unfoldable pub receive_all : List O → OrderCatchState O → OrderCatchState O
  receive_all [] s = s
  receive_all (o ∷ os) s = receive_all os (receive o s)

  -- The orders from the given place on.
  abbrev pub from_place : ℕ → List O → List O
  from_place zero os = os
  from_place (suc n) [] = []
  from_place (suc n) (o ∷ os) = from_place n os

  from_nothing : (n : ℕ) → from_place n [] ≡ []
  from_nothing zero = refl
  from_nothing (suc n) = refl

  newer-append :
      (last : ℕ) (xs ys : List (ℕ × O)) → newer last (xs ++ ys) ≡ newer last xs ++ newer last ys
  unfolding newer
  newer-append last [] ys = refl
  newer-append last ((n, o) ∷ xs) ys = ground (arith, newer-append last xs ys)

  newer_one :
      (k last n n' : ℕ) (o : O) (os : List O)
      → n' ≡ n + 1
      → k ≡ last - n
      → newer last ((n', o) ∷ []) ++ from_place (last - n') os ≡ from_place k (o ∷ os)
  unfolding newer
  newer_one zero last n n' o os e h =
      let none_left : last - n' ≡ 0 = omega (arith, e, h) in
      let new : ltb last n' ≡ true = ground (arith, e, h) in rw (new, none_left) refl
  newer_one (suc k) last n n' o os e h =
      let left : last - n' ≡ k = omega (arith, e, h) in
      let old : ltb last n' ≡ false = ground (arith, e, h) in rw (old, left) refl

  nonce-receive_all :
      (os : List O) (s : OrderCatchState O)
      → s.nonce + length os < 2 ^ 64
      → (receive_all os s).nonce ≡ s.nonce + length os
  unfolding receive_all receive
  nonce-receive_all [] s h = omega arith
  nonce-receive_all (o ∷ os) s h =
      let e = inc s.nonce (length os) h in
      nonce-receive_all os (receive o s) (omega (arith, e, h)) ∙ omega (arith, e)

  newer-receive_all :
      (last : ℕ) (os : List O) (s : OrderCatchState O)
      → s.nonce + length os < 2 ^ 64
      → newer last (receive_all os s).orders ≡ newer last s.orders ++ from_place (last - s.nonce) os
  unfolding receive_all receive newer
  newer-receive_all last [] s h =
      sym (ap (newer last s.orders ++◌) (from_nothing (last - s.nonce)) ∙ append-nil _)
  newer-receive_all last (o ∷ os) s h =
      let e = inc s.nonce (length os) h in
      newer-receive_all last os (receive o s) (omega (arith, e, h))
      ∙ ap (◌++ from_place (last - (receive o s).nonce) os)
          (newer-append last s.orders ((inc64 s.nonce, o) ∷ []))
      ∙ append_assoc (newer last s.orders) _ _
      ∙ ap (newer last s.orders ++◌)
          (newer_one (last - s.nonce) last s.nonce (inc64 s.nonce) o os e refl)

  -- Fewer than 2 ^ 64 orders came: the answer of `next` has those that came behind the given
  -- nonce, all of them, once and in their order, and the nonce to ask with next.
  pub next_delivers :
      (last : ℕ) (os : List O)
      → length os < 2 ^ 64
      → next_end last (receive_all os new_state)
        ≡ record { orders = from_place last os; nonce = length os }
  unfolding next_end new_state newer
  next_delivers last os h =
      let answer : List O → ℕ → CatchReturn O = λ ns k. record { orders = ns; nonce = k } in
      let bound : (new_state {O = O}).nonce + length os < 2 ^ 64 = omega (arith, h) in
      let count : (receive_all os new_state).nonce ≡ length os =
        nonce-receive_all os new_state bound ∙ omega arith in
      ap₂ answer
        (newer-receive_all last os new_state bound ∙ ap (λ k. from_place k os) (minus_zero last))
        count
