-- ===== src/Conn.antt =====
-- Connections: src/mux/tcp_conn.c with src/mux/smux.h. A connection is reached through a table of
-- operations, `ConnOps`; those of a TCP connection are built on src/lthread_socket.c.
pub mod Laws
pub mod Write
pub mod Dial
use lthread.Base.{
  ℕ, zero, suc, ◌+◌, ◌-◌, Bool, true, false, List, [], ◌∷◌, ◌++◌, ◌==◌, ltb, leb, if◌then◌else◌,
  length,
}
use lthread.Socket.Wait.{Result, count, minus_one, minus_two, assert_failed, no_fuel}

-- `net_conn_ops_t`: the arguments are the number of bytes, and the index in the buffer from which on
-- they are stored or taken. A read yields the bytes too.
pub record ConnOps (W : Type 0) : Type 0 where
  pub read : ℕ → W → Result × List ℕ × W
  pub write : ℕ → ℕ → W → Result × W
  pub close : W → W
  pub shutdown : W → W

module _ {W : Type 0} (ops : ConnOps W) where
  unfoldable pub conn_read : ℕ → W → Result × List ℕ × W
  conn_read len w = ops.read len w

  unfoldable pub conn_write : ℕ → W → Result × W
  conn_write len w = ops.write len 0 w

  unfoldable pub conn_close : W → W
  conn_close w = ops.close w

  unfoldable pub conn_shutdown : W → W
  conn_shutdown w = ops.shutdown w

  -- The loop of `net_conn_readfull`: `n` bytes are wanted yet, and `buf` were received. It returns the
  -- result of a read that is not positive, or `len`.
  unfoldable pub readfull_loop : ℕ → ℕ → ℕ → List ℕ → W → Result × List ℕ × W
  unfolding conn_read
  readfull_loop zero len n buf w = (no_fuel, buf, w)
  readfull_loop (suc f) len n buf w =
      let (r, bytes, w') = conn_read n w in
      let next = elim r as (λ _. Result × List ℕ × W) [
        | count zero ↦ (count 0, buf, w')
        | count (suc m) ↦ readfull_loop f len (n - suc m) (buf ++ bytes) w'
        | minus_one ↦ (minus_one, buf, w')
        | minus_two ↦ (minus_two, buf, w')
        | assert_failed ↦ (assert_failed, buf, w')
        | no_fuel ↦ (no_fuel, buf, w')
      ] in
      if n == 0 then (count len, buf, w) else next

  -- `net_conn_readfull`; each round but the last receives a byte.
  unfoldable pub readfull : ℕ → W → Result × List ℕ × W
  unfolding readfull_loop
  readfull len w = readfull_loop (suc len) len len [] w

-- `lthread_write`: the number of bytes, and the index in the buffer from which on they are taken
module _ {W : Type 0} (lthread_write : ℕ → ℕ → W → Result × W) where
  -- The loop of `tcp_conn_write`: `len` bytes are left and `written` were written. none when the fuel
  -- runs out.
  unfoldable pub write_loop : ℕ → ℕ → ℕ → W → Result × W
  write_loop zero len written w = (no_fuel, w)
  write_loop (suc f) len written w =
      let (r, w') = lthread_write len written w in
      elim r as (λ _. Result × W) [
        | count zero ↦ (count written, w')
        | count (suc m) ↦
            let rest = write_loop f (len - suc m) (written + suc m) w' in
            if ltb (suc m) len then rest else (count (written + suc m), w')
        | minus_one ↦ (count written, w')
        | minus_two ↦ (count written, w')
        | assert_failed ↦ (assert_failed, w')
        | no_fuel ↦ (no_fuel, w')
      ]

  unfoldable pub tcp_conn_write : ℕ → W → Result × W
  unfolding write_loop
  tcp_conn_write len w = write_loop (suc len) len 0 w

-- `net_tcp_conn`: `fd` is none for -1
pub record TcpConn : Type 0 where
  pub fd_ : ℕ
  pub is_open : Bool

-- `tcp_conn_init`; the descriptor 0 stands for no descriptor.
unfoldable pub tcp_conn_init : ℕ → TcpConn
tcp_conn_init fd = record { fd_ = fd; is_open = if fd == 0 then false else true }

module _ {W : Type 0} (lthread_close shutdown : ℕ → W → W) where
  unfoldable pub tcp_conn_close : TcpConn → W → W
  tcp_conn_close c w = if c.is_open then lthread_close c.fd_ w else w

  unfoldable pub tcp_conn_shutdown : TcpConn → W → W
  tcp_conn_shutdown c w = if c.is_open then shutdown c.fd_ w else w
