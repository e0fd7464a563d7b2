-- ===== src/Client/Calls.antt =====
-- `Reconnect` and `Call` of client/rpc.go: the state of the connection.
use panorama.Prelude.{
  ℕ, zero, suc, ◌≡◌, sym, ◌∙◌, is_some, Bool, true, false, arith, Option-cases, Bool-cases, inl,
  inr,
}
use panorama.Client.{Rpc, PersistentRpcClient, connect, close, retry, reconnect, call}

module _ {W Conn Args Reply : Type 0} (rpc : Rpc W Conn Args Reply) where
  connect-conn :
      (c : PersistentRpcClient Conn) (w : W)
      → (connect rpc c w).0 ≡ is_some (connect rpc c w).1.conn
  unfolding connect
  connect-conn c w = elim (Option-cases c.conn) [
    | inl e ↦ rw (connect, e)
    | inr (conn, e) ↦ ground (arith, e)
  ]

  -- The connection with which a retry begins, and what it leaves.
  abbrev redial : PersistentRpcClient Conn → W → Bool × PersistentRpcClient Conn × W
  redial c w = connect rpc (close rpc c w).0 (close rpc c w).1

  retry-conn :
      (n delay : ℕ) (ok : Bool) (c : PersistentRpcClient Conn) (w : W)
      → ok ≡ is_some c.conn
      → (retry rpc n delay ok c w).0 ≡ is_some (retry rpc n delay ok c w).1.conn
  unfolding retry
  retry-conn zero delay ok c w h = h
  retry-conn (suc n) delay ok c w h = elim (Bool-cases (redial c w).0) [
    | inl e ↦ rw (retry, e) (sym e ∙ connect-conn (close rpc c w).0 (close rpc c w).1)
    | inr e ↦
        rw (retry, e)
          (retry-conn n _ false (redial c w).1 _
            (sym e ∙ connect-conn (close rpc c w).0 (close rpc c w).1))
  ]

  -- `Reconnect`, with at least one retry, returns a nil error exactly if the client has a
  -- connection afterwards, whatever it had before.
  pub reconnect-conn :
      (n : ℕ) (c : PersistentRpcClient Conn) (w : W)
      → (reconnect rpc (suc n) c w).0 ≡ is_some (reconnect rpc (suc n) c w).1.conn
  unfolding reconnect retry
  reconnect-conn n c w = elim (Bool-cases (redial c w).0) [
    | inl e ↦ rw (reconnect, e) (sym e ∙ connect-conn (close rpc c w).0 (close rpc c w).1)
    | inr e ↦
        rw (reconnect, e)
          (retry-conn n _ false (redial c w).1 _
            (sym e ∙ connect-conn (close rpc c w).0 (close rpc c w).1))
  ]

  -- `Call` never uses a nil connection.
  pub call_returns :
      (c : PersistentRpcClient Conn) (args : Args) (reply : Reply) (w : W)
      → is_some (call rpc c args reply w) ≡ true
  unfolding call
  call_returns c args reply w = elim (Bool-cases (connect rpc c w).0) [
    | inr e ↦ rw (call, e)
    | inl e ↦ elim (Option-cases (connect rpc c w).1.conn) [
      | inl f ↦ absurd (ground (arith, e, f, connect-conn c w))
      | inr (conn, f) ↦ rw (call, e, f)
    ]
  ]
