-- ===== src/Dns/Lookup.antt =====
-- The loop of `dns_lookup` in src/dns/cdns.c over the resolvers. What it calls of
-- src/lthread_socket.c and src/lthread.c comes in as the record `Calls`, over a state `W`.
pub mod Laws
pub mod Found
use lthread.Base.{
  ℕ, zero, suc, ◌+◌, Bool, true, false, Option, none, some, List, [], ◌∷◌, ◌==◌, leb, ltb,
  if◌then◌else◌, length, get_or,
}
use lthread.Socket.Wait.{Result, count}
use lthread.Dns.Query.{build_query}
use lthread.Dns.Reply.{Reply, bad_flags, behind, scanned, read_reply}

-- `recv` yields its result and the bytes of the reply. What lies behind them in `rbuf` is left over
-- from before, and a read of it is taken for a read behind the buffer.
pub record Calls (W : Type 0) : Type 0 where
  pub socket : W → Result × W
  pub connect : ℕ → ℕ → W → Result × W
  pub send : ℕ → List ℕ → W → Result × W
  pub recv : ℕ → W → Result × List ℕ × W
  pub close : ℕ → W → W
  pub sleep : ℕ → W → W

-- What `dns_lookup` returns: an address, which is 0 for none. Or it reads behind a buffer, or its
-- fuel is used up.
pub data Lookup : Type 0 where
  address : ℕ → Lookup
  overread out_of_fuel : Lookup

module _ {W : Type 0} (calls : Calls W) where
  open calls use {socket, connect, send, recv, close, sleep}

  -- One resolver is asked. The round has no socket, it is given up, or it has a reply.
  pub data Exchange : Type 0 where
    no_socket given_up silent : Exchange
    replied : List ℕ → Exchange

  abbrev pub received : Result × List ℕ × W → ℕ → Exchange × W
  received (count (suc n), buf, w) fd = (replied buf, w)
  received (r, buf, w) fd = (silent, w)

  abbrev pub sent : ℕ → ℕ → Result × W → Exchange × W
  sent size fd (count n, w) = if ltb n size then (given_up, close fd w) else received (recv fd w) fd
  sent size fd (r, w) = (given_up, close fd w)

  abbrev pub connected : List ℕ → ℕ → Result × W → Exchange × W
  connected query fd (count n, w) = sent (length query) fd (send fd query w)
  connected query fd (r, w) = (given_up, close fd w)

  abbrev pub opened : List ℕ → ℕ → Result × W → (Exchange × W) × ℕ
  opened query dns (count fd, w) = (connected query fd (connect fd dns w), fd)
  opened query dns (r, w) = ((no_socket, w), 0)

  -- The loop: `i` is the index of the resolver, which reading a reply overwrites.
  unfoldable pub ask_loop : ℕ → List ℕ → List ℕ → ℕ → W → Lookup × W
  ask_loop zero query resolvers i w = (out_of_fuel, w)
  ask_loop (suc f) query resolvers i w =
      let ((e, w'), fd) = opened query (get_or resolvers i 0) (socket w) in
      let next = elim e as (λ _. Lookup × W) [
        | no_socket ↦ (address 0, w')
        | given_up ↦ ask_loop f query resolvers (i + 1) w'
        | silent ↦ ask_loop f query resolvers (i + 1) (sleep 500 (close fd w'))
        | replied buf ↦ elim (read_reply buf) as (λ _. Lookup × W) [
          | bad_flags ↦ ask_loop f query resolvers (i + 1) (close fd w')
          | behind ↦ (overread, w')
          | scanned j ip ↦
              let rest = ask_loop f query resolvers (j + 1) (sleep 500 (close fd w')) in
              if ip == 0 then rest else (address ip, close fd w')
        ]
      ] in
      if leb (length resolvers) i then (address 0, w) else next

  -- `dns_lookup`: `memory` tells whether both allocations succeed. A host name whose query cannot be
  -- built is none, see `Dns.Query`.
  unfoldable pub dns_lookup : ℕ → Bool → ℕ → List ℕ → List ℕ → W → Lookup × W
  unfolding ask_loop
  dns_lookup f false id host resolvers w = (address 0, w)
  dns_lookup f true id host resolvers w = elim (build_query id host) [
    | none ↦ (out_of_fuel, w)
    | some query ↦ ask_loop f query resolvers 0 w
  ]
