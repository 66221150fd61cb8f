-- ===== src/SubClient/Connect.antt =====
-- `connect` and the loop of `watch` that calls it (src/base/exchange/sub_client.rs).
use arbexpert_backend.Base.{ℕ, ◌≤◌, ◌≡◌, ◌≢◌, refl, Bool, true, false, arith}
use arbexpert_backend.SubClient.{SubClient, Dial, ready, joins, dials, u32_max, connect_begin}

-- The id that the call returns.
abbrev pub dial_id : Dial → ℕ
dial_id (ready id) = id
dial_id (joins id) = id
dial_id (dials id) = id

module _ {D : Type 0} where
  -- Where the stored id is a `u32` and not 0: whichever way the first piece of `connect` goes,
  -- the id that the call returns is the one stored behind it, and that is again a `u32` and not
  -- 0; so the loop of `watch` ends after one call unless another task connects meanwhile.
  pub connect_ends_loop :
      (busy connected : Bool) (tx : ℕ) (c : SubClient D)
      → c.connecting_id ≤ u32_max
      → c.connecting_id ≢ 0
      → let (c', d) = connect_begin busy connected tx c in
        (dial_id d ≡ c'.connecting_id) × (c'.connecting_id ≤ u32_max) × (c'.connecting_id ≢ 0)
  unfolding connect_begin
  connect_ends_loop true connected tx c h n = (refl, h, n)
  connect_ends_loop false true tx c h n = (refl, h, n)
  connect_ends_loop false false tx c h n = ground arith

  -- Where the stored id is a `u32`, a new dial stores one that differs from it.
  pub connect_new_id :
      (tx : ℕ) (c : SubClient D)
      → c.connecting_id ≤ u32_max
      → (connect_begin false false tx c).0.connecting_id ≢ c.connecting_id
  unfolding connect_begin
  connect_new_id tx c h = ground arith
