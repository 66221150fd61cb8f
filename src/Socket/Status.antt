-- ===== src/Socket/Status.antt =====
-- `ConnectStatus` and `ConnectStatusRepr` of src/base/ws/client.rs.
use arbexpert_backend.Base.{ℕ, ◌≡◌, refl, Option, none, some, ◌==◌, if◌then◌else◌, arith}

pub data ConnectStatus : Type 0 where
  connecting connected disconnected : ConnectStatus

-- `From`: the discriminant as a `u8`.
unfoldable pub to_repr : ConnectStatus → ℕ
to_repr connecting = 0
to_repr connected = 1
to_repr disconnected = 2

-- `TryFrom`; `none` is the error.
unfoldable pub try_from : ℕ → Option ConnectStatus
unfolding to_repr
try_from n =
    if n == to_repr disconnected
    then some disconnected
    else if n == to_repr connecting
    then some connecting
    else if n == to_repr connected
    then some connected
    else none

-- A status read back from its byte is itself, and a byte that is read as a status is that of the
-- status.
pub try_from-to_repr :
    (s : ConnectStatus) (n : ℕ)
    → (try_from (to_repr s) ≡ some s) × (try_from n ≡ some s → n ≡ to_repr s)
unfolding try_from to_repr
try_from-to_repr connecting n = (refl, λ e. ground arith)
try_from-to_repr connected n = (refl, λ e. ground arith)
try_from-to_repr disconnected n = (refl, λ e. ground arith)
