-- ===== src/Client/Dials.antt =====
-- `Reconnect` of client/rpc.go: how often it dials.
use panorama.Prelude.{
  ℕ, zero, suc, ◌+◌, ◌*◌, ◌≤◌, ◌≡◌, GoString, Bool, true, false, nat_beq, arith, Option-cases,
  Bool-cases, inl, inr,
}
use panorama.Client.{Rpc, PersistentRpcClient, connect, close, retry, reconnect}

-- A world that counts the dials: only dialing raises the count, and by one.
pub record Counts {W Conn Args Reply : Type 0} (rpc : Rpc W Conn Args Reply) : Type 0 where
  pub count : W → ℕ
  pub dials : (addr : GoString) (w : W) → count (rpc.dial addr w).1 ≡ count w + 1
  pub hangs_up : (conn : Conn) (w : W) → count (rpc.hang_up conn w) ≡ count w
  pub sleeps : (delay : ℕ) (w : W) → count (rpc.sleep delay w) ≡ count w

module _ {W Conn Args Reply : Type 0} (rpc : Rpc W Conn Args Reply) (counts : Counts rpc) where
  connect-count :
      (c : PersistentRpcClient Conn) (w : W) → counts.count (connect rpc c w).2 ≤ counts.count w + 1
  unfolding connect
  connect-count c w = elim (Option-cases c.conn) [
    | inl e ↦ rw (connect, e) (omega (arith, counts.dials c.addr w))
    | inr (conn, e) ↦ rw (connect, e) (omega arith)
  ]

  close-count :
      (c : PersistentRpcClient Conn) (w : W) → counts.count (close rpc c w).1 ≡ counts.count w
  unfolding close
  close-count c w = elim (Option-cases c.conn) [
    | inl e ↦ rw (close, e)
    | inr (conn, e) ↦ rw (close, e) (counts.hangs_up conn w)
  ]

  retry-count :
      (n delay : ℕ) (ok : Bool) (c : PersistentRpcClient Conn) (w : W)
      → counts.count (retry rpc n delay ok c w).2 ≤ counts.count w + n
  unfolding retry
  retry-count zero delay ok c w = omega arith
  retry-count (suc n) delay ok c w =
      let closed = close rpc c w in
      let dialed = connect rpc closed.0 closed.1 in
      let step : counts.count dialed.2 ≤ counts.count w + 1 =
        omega (arith, connect-count closed.0 closed.1, close-count c w) in
      elim (Bool-cases dialed.0) [
        | inl e ↦ rw (retry, e) (omega (arith, step))
        | inr e ↦ elim (Bool-cases (nat_beq n 0)) [
          | inl f ↦
              rw (retry, e, f) (omega (arith, step, retry-count n delay false dialed.1 dialed.2))
          | inr f ↦
              rw (retry, e, f)
                (omega (
                  arith,
                  step,
                  counts.sleeps delay dialed.2,
                  retry-count n (delay * 2) false dialed.1 (rpc.sleep delay dialed.2),
                ))
        ]
      ]

  -- `Reconnect` dials at most as often as it may retry, in a world where only dialing counts.
  pub reconnect-count :
      (n : ℕ) (c : PersistentRpcClient Conn) (w : W)
      → counts.count (reconnect rpc n c w).2 ≤ counts.count w + n
  unfolding reconnect
  reconnect-count n c w = retry-count n 1 true c w
