-- ===== src/Socket/Life.antt =====
-- The life of a connection (src/base/ws/client.rs): what every order of its steps keeps.
use arbexpert_backend.Base.{
  ℕ, ◌≤◌, ◌≡◌, refl, sym, subst, length, Bool, true, false, some, [], ◌∷◌, arith,
}
use arbexpert_backend.Socket.Status.{disconnected, to_repr, try_from}
use arbexpert_backend.Socket.{
  WsClient, new_ws, is_connected, Connect, waits, dials, connect_begin, connect_end, drop_loop,
  loop_end, runs, send,
}

-- The client, and whether a call of `connect` waits for its handshake: `connect` takes `&mut self`,
-- so that no other call of the client begins before it is done.
pub record Socket : Type 0 where
  pub client : WsClient
  pub dialling : Bool

abbrev is_dial : Connect → Bool
is_dial dials = true
is_dial _ = false

pub data Step (s t : Socket) : Type 0 where
  begins :
      (builds : Bool) (tx : ℕ)
      → s.dialling ≡ false
      → t ≡ record {
        client = (connect_begin builds tx s.client).0;
        dialling = is_dial (connect_begin builds tx s.client).1;
      }
      → Step s t
  ends :
      (ok : Bool)
      → s.dialling ≡ true
      → t ≡ record { client = (connect_end ok s.client).0; dialling = false }
      → Step s t
  breaks :
      (ch : ℕ)
      → runs ch s.client.loops ≡ true
      → t ≡ record s { client = loop_end ch s.client }
      → Step s t

pub data Reach (s : Socket) : Socket → Type 0 where
  here : Reach s s
  next : {t u : Socket} → Reach s t → Step t u → Reach s u

-- The status says what the tasks do: connected is one loop, on the channel that `send` uses; the
-- other two are no loop, and a handshake goes on only under connecting.
pub data IsSound (s : Socket) : Type 0 where
  idle : s.client.status ≡ 2 → s.client.loops ≡ [] → s.dialling ≡ false → IsSound s
  busy : s.client.status ≡ 0 → s.client.loops ≡ [] → IsSound s
  live :
      (ch : ℕ)
      → s.client.status ≡ 1
      → s.client.loops ≡ ch ∷ []
      → s.client.sender ≡ some ch
      → s.dialling ≡ false
      → IsSound s

abbrev pub start : Socket
start = record { client = new_ws; dialling = false }

begins-IsSound :
    (builds : Bool) (tx : ℕ) (s : Socket)
    → s.dialling ≡ false
    → IsSound s
    → IsSound (record {
      client = (connect_begin builds tx s.client).0;
      dialling = is_dial (connect_begin builds tx s.client).1;
    })
unfolding connect_begin try_from to_repr
begins-IsSound builds tx s n (idle a b c) = busy (ground (arith, a)) (ground (arith, a, b))
begins-IsSound builds tx s n (busy a b) = busy (ground (arith, a)) (ground (arith, a, b))
begins-IsSound builds tx s n (live ch a b c d) =
    live ch (ground (arith, a)) (ground (arith, a, b)) (ground (arith, a, c)) (ground (arith, a))

ends-IsSound :
    (ok : Bool) (s : Socket)
    → s.dialling ≡ true
    → IsSound s
    → IsSound (record { client = (connect_end ok s.client).0; dialling = false })
unfolding connect_end to_repr
ends-IsSound false s n (busy a b) = idle refl b refl
ends-IsSound true s n (busy a b) = live s.client.next_channel refl (ground (arith, b)) refl refl
ends-IsSound ok s n (idle a b c) = absurd (ground (arith, c, n))
ends-IsSound ok s n (live ch a b c d) = absurd (ground (arith, d, n))

breaks-IsSound :
    (ch : ℕ) (s : Socket)
    → runs ch s.client.loops ≡ true
    → IsSound s
    → IsSound (record s { client = loop_end ch s.client })
unfolding loop_end runs drop_loop to_repr
breaks-IsSound ch s r (idle a b c) = absurd (ground (arith, b, r))
breaks-IsSound ch s r (busy a b) = absurd (ground (arith, b, r))
breaks-IsSound ch s r (live l a b c d) = idle refl (ground (arith, b, r)) d

Step-IsSound : {s t : Socket} → IsSound s → Step s t → IsSound t
Step-IsSound {s} h (begins builds tx n e) = subst IsSound (sym e) (begins-IsSound builds tx s n h)
Step-IsSound {s} h (ends ok n e) = subst IsSound (sym e) (ends-IsSound ok s n h)
Step-IsSound {s} h (breaks ch r e) = subst IsSound (sym e) (breaks-IsSound ch s r h)

start-IsSound : IsSound start
unfolding to_repr
start-IsSound = idle refl refl refl

Reach-IsSound : {s t : Socket} → IsSound s → Reach s t → IsSound t
Reach-IsSound h here = h
Reach-IsSound h (next r st) = Step-IsSound (Reach-IsSound h r) st

-- Whatever steps led from a new client to the state: `send` finds a receiver exactly if
-- `is_connected` says so, at most one loop runs, and none while a handshake goes on.
pub send-is_connected :
    (s : Socket)
    → Reach start s
    → (send s.client ≡ is_connected s.client)
      × (length s.client.loops ≤ 1)
      × (s.dialling ≡ true → s.client.loops ≡ [])
unfolding send runs try_from to_repr
send-is_connected s r = from_sound (Reach-IsSound start-IsSound r)
  where
    from_sound :
        IsSound s
        → (send s.client ≡ is_connected s.client)
          × (length s.client.loops ≤ 1)
          × (s.dialling ≡ true → s.client.loops ≡ [])
    from_sound (idle a b c) = (ground (arith, a, b), ground (arith, b), λ e. b)
    from_sound (busy a b) = (ground (arith, a, b), ground (arith, b), λ e. b)
    from_sound (live ch a b c d) =
        (ground (arith, a, b, c), ground (arith, b), λ e. absurd (ground (arith, d, e)))

-- A client whose last call of `connect` stopped at the builder.
record IsStuck (s : Socket) : Type 0 where
  status : s.client.status ≡ 0
  loops : s.client.loops ≡ []
  free : s.dialling ≡ false

Step-IsStuck : {s t : Socket} → IsStuck s → Step s t → IsStuck t
unfolding connect_begin try_from to_repr runs
Step-IsStuck {s} h (begins builds tx n e) = subst IsStuck (sym e) (record {
  status = ground (arith, h.status);
  loops = ground (arith, h.status, h.loops);
  free = ground (arith, h.status);
})
Step-IsStuck {s} h (ends ok n e) = absurd (ground (arith, h.free, n))
Step-IsStuck {s} h (breaks ch r e) = absurd (ground (arith, h.loops, r))

Reach-IsStuck : {s t : Socket} → IsStuck s → Reach s t → IsStuck t
Reach-IsStuck h here = h
Reach-IsStuck h (next r st) = Step-IsStuck (Reach-IsStuck h r) st

-- A call of `connect` that fails before its handshake, on a client that was not connected nor
-- connecting, leaves it in the status connecting for ever: whatever steps follow, the client is not
-- connected, and every further call of `connect` waits to be told.
pub build_error_is_final :
    (s t : Socket) (tx later : ℕ) (builds : Bool)
    → Reach start s
    → s.client.status ≡ to_repr disconnected
    → Reach (record { client = (connect_begin false tx s.client).0; dialling = false }) t
    → (is_connected t.client ≡ false) × ((connect_begin builds later t.client).1 ≡ waits)
unfolding connect_begin try_from to_repr
build_error_is_final s t tx later builds r d after = from_stuck (Reach-IsStuck stuck after)
  where
    no_loop : IsSound s → (connect_begin false tx s.client).0.loops ≡ []
    no_loop (idle a b c) = ground (arith, a, b)
    no_loop (busy a b) = ground (arith, a, b)
    no_loop (live ch a b c e) = absurd (ground (arith, a, d))

    stuck : IsStuck (record { client = (connect_begin false tx s.client).0; dialling = false })
    stuck = record {
      status = ground (arith, d);
      loops = no_loop (Reach-IsSound start-IsSound r);
      free = refl;
    }

    from_stuck :
        IsStuck t
        → (is_connected t.client ≡ false) × ((connect_begin builds later t.client).1 ≡ waits)
    from_stuck h = (ground (arith, h.status), ground (arith, h.status))
