-- ===== src/Socket/Loop/Delivery.antt =====
-- What the loop of a connection sends and handles (src/base/ws/client.rs).
use mathlib.Core.List.{Perm, append-nil, append_assoc}
use mathlib.Core.Option.{some-injective}
use mathlib.Core.List.Perm
use arbexpert_backend.Base.{
  ℕ, zero, suc, ◌≡◌, refl, sym, subst, ap, ◌∙◌, ltb, ◌-◌, Bool-cases, String, true, false, none,
  some, List, [], ◌∷◌, ◌++◌, arith, Option-cases, inl, inr,
}
use arbexpert_backend.Socket.Loop.{
  WsMessage, ping, pong, Event, ticks, binary, texts, pinged, ponged, closed, continued, errs,
  ended, command, client_done, ext_done, LoopState, new_loop, Turn, goes_on, breaks, take_at,
  on_event, run,
}

take_at-perm {ℓ} :
    {A : Type ℓ} (i : ℕ) (xs rest : List A) (x : A)
    → take_at i xs ≡ some (x, rest)
    → Perm (x ∷ rest) xs
unfolding take_at
take_at-perm i [] rest x e = absurd (ground arith)
take_at-perm zero (y ∷ xs) rest x e =
    subst {A = _ × _} (λ r. Perm (r.0 ∷ r.1) (y ∷ xs)) (some-injective _ _ e) (Perm.refl (y ∷ xs))
take_at-perm (suc i) (y ∷ xs) rest x e = elim (Option-cases (take_at i xs)) [
  | inl k ↦ absurd (ground (arith, k))
  | inr ((z, others), k) ↦
      subst {A = _ × _} (λ r. Perm (r.0 ∷ r.1) (y ∷ xs))
        (some-injective (z, y ∷ others) (x, rest) (ground (arith, k, e)))
        (Perm.trans (Perm.swap y z others) (Perm.cons y (take_at-perm i xs others z k)))
]

module _ {P : Type 0} (no_payload : P) where
  -- What an event asks to be sent.
  abbrev pub replies : Event P → List (WsMessage P)
  replies (ticks true) = ping no_payload ∷ []
  replies (pinged p) = pong p ∷ []
  replies (command (some m)) = m ∷ []
  replies _ = []

  abbrev pub all_replies : List (Event P) → List (WsMessage P)
  all_replies [] = []
  all_replies (e ∷ es) = replies e ++ all_replies es

  -- The texts that the frames bring.
  abbrev pub all_texts : List (Event P) → List String
  all_texts [] = []
  all_texts (texts (some t) later ∷ es) = t ∷ all_texts es
  all_texts (_ ∷ es) = all_texts es

  -- The messages that the loop has taken: sent, or on their way.
  abbrev pub taken : LoopState P → List (WsMessage P)
  taken l = l.sent ++ l.ext_tasks

  -- What a turn adds to both records.
  Adds : Event P → LoopState P → LoopState P → Type 0
  Adds e l m =
      Perm (taken m) (taken l ++ replies e)
      × (m.texts_handled ≡ l.texts_handled ++ all_texts (e ∷ []))

  push-Adds :
      (x : WsMessage P) (l : LoopState P)
      → Perm (l.sent ++ (l.ext_tasks ++ x ∷ [])) ((l.sent ++ l.ext_tasks) ++ x ∷ [])
  push-Adds x l = rw (append_assoc l.sent l.ext_tasks (x ∷ [])) (Perm.refl _)

  same : (xs : List (WsMessage P)) → Perm xs (xs ++ [])
  same xs = rw append-nil (Perm.refl xs)

  goes-injective : (l m : LoopState P) → goes_on l ≡ goes_on m → l ≡ m
  goes-injective l m e = ground arith

  on_event-Adds :
      (e : Event P) (l m : LoopState P) → on_event no_payload e l ≡ goes_on m → Adds e l m
  unfolding on_event Adds
  on_event-Adds (ticks true) l m h =
      subst (Adds (ticks true) l) (goes-injective _ m h)
        (push-Adds (ping no_payload) l, sym (append-nil _))
  on_event-Adds (binary p later) l m h =
      subst (Adds (binary p later) l) (goes-injective _ m h) (same _, sym (append-nil _))
  on_event-Adds (texts (some t) later) l m h =
      subst (Adds (texts (some t) later) l) (goes-injective _ m h) (same _, refl)
  on_event-Adds (pinged p) l m h =
      subst (Adds (pinged p) l) (goes-injective _ m h) (push-Adds (pong p) l, sym (append-nil _))
  on_event-Adds ponged l m h =
      subst (Adds ponged l) (goes-injective _ m h) (same _, sym (append-nil _))
  on_event-Adds (command (some x)) l m h =
      subst (Adds (command (some x)) l) (goes-injective _ m h) (push-Adds x l, sym (append-nil _))
  on_event-Adds client_done l m h = elim (Bool-cases (ltb 0 l.client_tasks)) [
    | inl e ↦
        let next : record l { client_tasks = l.client_tasks - 1 } ≡ m = ground (arith, e, h) in
        subst (Adds client_done l) next (same _, sym (append-nil _))
    | inr e ↦ absurd (ground (arith, e, h))
  ]
  on_event-Adds (ext_done i false) l m h = absurd (ground arith)
  on_event-Adds (ext_done i true) l m h = elim (Option-cases (take_at i l.ext_tasks)) [
    | inl e ↦ absurd (ground (arith, e, h))
    | inr ((x, rest), e) ↦
        let next : record l { ext_tasks = rest; sent = l.sent ++ x ∷ [] } ≡ m =
          ground (arith, e, h) in
        subst (Adds (ext_done i true) l) next (
          rw (append-nil, append_assoc l.sent (x ∷ []) rest)
              (Perm.append_left l.sent (take_at-perm i l.ext_tasks rest x e)),
          sym (append-nil _),
        )
  ]
  on_event-Adds (ticks false) l m h = absurd (ground arith)
  on_event-Adds (texts none later) l m h = absurd (ground arith)
  on_event-Adds closed l m h = absurd (ground arith)
  on_event-Adds continued l m h = absurd (ground arith)
  on_event-Adds errs l m h = absurd (ground arith)
  on_event-Adds ended l m h = absurd (ground arith)
  on_event-Adds (command none) l m h = absurd (ground arith)

  texts-append : (es fs : List (Event P)) → all_texts (es ++ fs) ≡ all_texts es ++ all_texts fs
  texts-append [] fs = refl
  texts-append (texts (some t) later ∷ es) fs = ap (t ∷◌) (texts-append es fs)
  texts-append (texts none later ∷ es) fs = texts-append es fs
  texts-append (ticks b ∷ es) fs = texts-append es fs
  texts-append (binary p later ∷ es) fs = texts-append es fs
  texts-append (pinged p ∷ es) fs = texts-append es fs
  texts-append (ponged ∷ es) fs = texts-append es fs
  texts-append (closed ∷ es) fs = texts-append es fs
  texts-append (continued ∷ es) fs = texts-append es fs
  texts-append (errs ∷ es) fs = texts-append es fs
  texts-append (ended ∷ es) fs = texts-append es fs
  texts-append (command c ∷ es) fs = texts-append es fs
  texts-append (client_done ∷ es) fs = texts-append es fs
  texts-append (ext_done i b ∷ es) fs = texts-append es fs

  on_event-adds :
      (e : Event P) (l m : LoopState P)
      → on_event no_payload e l ≡ goes_on m
      → Perm (taken m) (taken l ++ replies e)
        × (m.texts_handled ≡ l.texts_handled ++ all_texts (e ∷ []))
  unfolding Adds
  on_event-adds = on_event-Adds

  run-adds :
      (es : List (Event P)) (l m : LoopState P)
      → run no_payload es l ≡ goes_on m
      → Perm (taken m) (taken l ++ all_replies es)
        × (m.texts_handled ≡ l.texts_handled ++ all_texts es)
  unfolding run
  run-adds [] l m h =
      subst (λ x. Perm (taken x) (taken l ++ []) × (x.texts_handled ≡ l.texts_handled ++ []))
        (goes-injective l m h) (same _, sym (append-nil _))
  run-adds (e ∷ es) l m h = after (on_event no_payload e l) refl (λ k. run-adds es k m)
    where
      after :
          (t : Turn P)
          → on_event no_payload e l ≡ t
          → ((k : LoopState P)
              → run no_payload es k ≡ goes_on m
              → Perm (taken m) (taken k ++ all_replies es)
                × (m.texts_handled ≡ k.texts_handled ++ all_texts es))
          → Perm (taken m) (taken l ++ (replies e ++ all_replies es))
            × (m.texts_handled ≡ l.texts_handled ++ all_texts (e ∷ es))
      after (breaks why k) a ih = absurd (ground (arith, a, h))
      after (goes_on k) a ih =
          let rest = ih k (ground (arith, a, h)) in
          let here = on_event-adds e l k a in
          (
            Perm.trans rest.0 (
                subst (Perm (taken k ++ all_replies es))
                  (append_assoc (taken l) (replies e) (all_replies es))
                  (Perm.append_right (all_replies es) here.0)),
            rest.1
                ∙ ap (◌++ all_texts es) here.1
                ∙ append_assoc l.texts_handled (all_texts (e ∷ [])) (all_texts es)
                ∙ ap (l.texts_handled ++◌) (sym (texts-append (e ∷ []) es)),
          )

  -- As long as the loop of a connection has not broken: what it has sent, and what is on its way, is
  -- one ping for each tick, one pong for each ping with its payload, and each message of the client,
  -- up to order, none twice; and the texts went to the callback in the order of their frames.
  pub run_delivers :
      (es : List (Event P)) (l : LoopState P)
      → run no_payload es new_loop ≡ goes_on l
      → Perm (l.sent ++ l.ext_tasks) (all_replies es) × (l.texts_handled ≡ all_texts es)
  run_delivers es l h = run-adds es new_loop l h
