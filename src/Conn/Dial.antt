-- ===== src/Conn/Dial.antt =====
-- `tcp_dial_ipv4` of src/mux/tcp_conn.c. `inet_pton`, `dns_lookup`, `lthread_socket` and
-- `lthread_connect` come in as parameters: their results.
use lthread.Base.{
  ℕ, zero, suc, ◌+◌, ◌-◌, ◌*◌, ◌%◌, ◌^◌, Bool, Option, none, some, List, [], ◌∷◌, ◌==◌, ◌||◌, ◌&&◌,
  leb, if◌then◌else◌, push_back,
}
use lthread.Socket.Wait.{Result, count}

-- strstr(host_port, ":"): the text before the first colon, and the text behind it
unfoldable pub split_colon : List ℕ → List ℕ → Option (List ℕ × List ℕ)
split_colon host [] = none
split_colon host (c ∷ cs) =
    let on = split_colon (push_back host c) cs in if c == 58 then some (host, cs) else on

abbrev pub is_digit : ℕ → Bool
is_digit c = leb 48 c && leb c 57

-- the digits that atoi reads
unfoldable pub digits_value : ℕ → List ℕ → ℕ
digits_value n [] = n
digits_value n (c ∷ cs) =
    let more = digits_value (n * 10 + (c - 48)) cs in if is_digit c then more else n

abbrev pub is_space : ℕ → Bool
is_space c = c == 32 || (leb 9 c && leb c 13)

-- (short)atoi(text), as the 16 bits that htons is given; a number above INT_MAX is no case of atoi.
unfoldable pub port_of : List ℕ → ℕ
unfolding digits_value
port_of [] = 0
port_of (c ∷ cs) =
    let skip = port_of cs in
    if is_space c
    then skip
    else if c == 45
    then (2 ^ 16 - digits_value 0 cs % 2 ^ 16) % 2 ^ 16
    else if c == 43
    then digits_value 0 cs % 2 ^ 16
    else digits_value 0 (c ∷ cs) % 2 ^ 16

-- What is returned: 0 with the descriptor of the connection, or one of -1 to -4, and the descriptor
-- that was closed again, if one was.
pub data Dialled : Type 0 where
  connected : ℕ → Dialled
  no_port unknown_host no_socket : Dialled
  refused : ℕ → Dialled

module _ {W : Type 0} (lthread_socket : W → Result × W)
    (lthread_connect : ℕ → ℕ → ℕ → W → Result × W) where
  abbrev pub after_connect : ℕ → Result × W → Dialled × W
  after_connect fd (count n, w) = (connected fd, w)
  after_connect fd (r, w) = (refused fd, w)

  abbrev pub after_socket : ℕ → ℕ → Result × W → Dialled × W
  after_socket ip port (count fd, w) = after_connect fd (lthread_connect fd ip port w)
  after_socket ip port (r, w) = (no_socket, w)

  abbrev pub found : Option ℕ → ℕ → ℕ × W → Dialled × W
  found none port (zero, w) = (unknown_host, w)
  found none port (suc ip, w) = after_socket (suc ip) port (lthread_socket w)
  found (some a) port (ip, w) = after_socket ip port (lthread_socket w)

  -- `inet_pton` answers for the host, or `dns_lookup` does.
  abbrev pub resolve : (List ℕ → W → ℕ × W) → Option ℕ → List ℕ → W → ℕ × W
  resolve dns_lookup none host w = dns_lookup host w
  resolve dns_lookup (some ip) host w = (ip, w)

  unfoldable pub tcp_dial_ipv4 :
      (List ℕ → Option ℕ) → (List ℕ → W → ℕ × W) → List ℕ → W → Dialled × W
  unfolding split_colon port_of
  tcp_dial_ipv4 inet_pton dns_lookup host_port w = elim (split_colon [] host_port) [
    | none ↦ (no_port, w)
    | some (host, rest) ↦
        found (inet_pton host) (port_of rest) (resolve dns_lookup (inet_pton host) host w)
  ]
