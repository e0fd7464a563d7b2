-- ===== src/Client.antt =====
-- client/rpc.go: the RPC clients. net/rpc and the clock are a parameter, over a state `W` of the
-- world; a method runs atomically, under the client's mutex. Delays are written without the
-- wrap-around of a `time.Duration`, which starts at 34 retries.
pub mod Calls
pub mod Dials
use panorama.Prelude.{
  ℕ, zero, suc, ◌+◌, ◌*◌, GoString, Option, none, some, Bool, true, false, ◌&&◌, is_some, nat_beq,
  if◌then◌else◌,
}

pub data RpcError : Type 0 where
  err_shutdown other_error : RpcError

-- Dialing an address, a call on a connection, closing one, and sleeping for some seconds. An error
-- is none where it is nil.
pub record Rpc (W Conn Args Reply : Type 0) : Type 0 where
  pub dial : GoString → W → Option Conn × W
  pub request : Conn → Args → W → Option RpcError × Reply × W
  pub hang_up : Conn → W → W
  pub sleep : ℕ → W → W

abbrev pub max_retries : ℕ
max_retries = 3

pub record PersistentRpcClient (Conn : Type 0) : Type 0 where
  pub addr : GoString
  pub conn : Option Conn

unfoldable pub new_persistent_rpc_client : {Conn : Type 0} → GoString → PersistentRpcClient Conn
new_persistent_rpc_client addr = record { addr = addr; conn = none }

module _ {W Conn Args Reply : Type 0} (rpc : Rpc W Conn Args Reply) where
  abbrev pub Client : Type 0
  Client = PersistentRpcClient Conn

  -- `SimpleRpcClient.Call`
  unfoldable pub simple_call : GoString → Args → Reply → W → Option RpcError × Reply × W
  simple_call addr args reply w =
      let (found, w1) = rpc.dial addr w in
      elim found [
        | none ↦ (some other_error, reply, w1)
        | some conn ↦
            let (err, reply', w2) = rpc.request conn args w1 in (err, reply', rpc.hang_up conn w2)
      ]

  -- Whether there is no error; a failed `rpc.Dial` returns a nil client.
  unfoldable pub connect : Client → W → Bool × Client × W
  connect c w = elim c.conn [
    | some conn ↦ (true, c, w)
    | none ↦ let (found, w1) = rpc.dial c.addr w in (is_some found, record c { conn = found }, w1)
  ]

  unfoldable pub close : Client → W → Client × W
  close c w = elim c.conn [
    | none ↦ (c, w)
    | some conn ↦ (record c { conn = none }, rpc.hang_up conn w)
  ]

  -- The loop of `Reconnect` with the retries that are left; the flag is `err == nil`.
  unfoldable pub retry : ℕ → ℕ → Bool → Client → W → Bool × Client × W
  unfolding connect close
  retry zero delay ok c w = (ok, c, w)
  retry (suc n) delay ok c w =
      let (closed, w1) = close c w in
      let (good, c', w2) = connect closed w1 in
      let last_try = nat_beq n 0 in
      let rest =
        retry n (if last_try then delay else delay * 2) false c'
          (if last_try then w2 else rpc.sleep delay w2) in
      if good then (true, c', w2) else rest

  unfoldable pub reconnect : ℕ → Client → W → Bool × Client × W
  unfolding retry
  reconnect maxretries c w = retry maxretries 1 true c w

  -- After an `ErrShutdown`: the end of `Call`.
  unfoldable pub call_again : Args → Reply → Client → W → Option RpcError × Reply × Client × W
  unfolding reconnect close
  call_again args reply c w =
      let (closed, w1) = close c w in
      let (ok, c', w2) = reconnect max_retries closed w1 in
      if ok
      then elim c'.conn [
        | none ↦ (none, reply, c', w2)
        | some conn ↦ let (err, reply', w3) = rpc.request conn args w2 in (err, reply', c', w3)
      ]
      else (some err_shutdown, reply, c', w2)

  abbrev pub is_shutdown : Option RpcError → Bool
  is_shutdown none = false
  is_shutdown (some err_shutdown) = true
  is_shutdown (some other_error) = false

  -- `PersistentRpcClient.Call`: none where `c.conn.Call` would run on a nil connection.
  unfoldable pub call : Client → Args → Reply → W → Option (Option RpcError × Reply × Client × W)
  unfolding connect call_again
  call c args reply w =
      let (ok, c', w1) = connect c w in
      if ok
      then elim c'.conn [
        | none ↦ none
        | some conn ↦
            let (err, reply', w2) = rpc.request conn args w1 in
            let again = call_again args reply' c' w2 in
            some (if is_shutdown err then again else (err, reply', c', w2))
      ]
      else some (some other_error, reply, c', w1)
