-- ===== src/Dns/Reply.antt =====
-- What `dns_lookup` of src/dns/cdns.c reads from a reply.
use lthread.Base.{
  ℕ, zero, suc, ◌+◌, ◌*◌, ◌/◌, ◌%◌, ◌^◌, Bool, List, ◌==◌, ◌&&◌, leb, if◌then◌else◌, length, get_or,
  set,
}
use lthread.Dns.Query.{header_size}
use lthread.Dns.Name.{taken, overrun, no_fuel, parse_name}

-- a 16-bit field in network order
abbrev pub field16 : List ℕ → ℕ → ℕ
field16 buf off = get_or buf off 0 * 256 + get_or buf (off + 1) 0

-- `swab` of one field, in place
abbrev pub swap16 : ℕ → List ℕ → List ℕ
swap16 off buf = set (set buf off (get_or buf (off + 1) 0)) (off + 1) (get_or buf off 0)

-- The `DNSAnswer` at an index, with its fields turned into the order of the machine; ten bytes.
abbrev pub swap_answer : ℕ → List ℕ → List ℕ
swap_answer off buf =
    let ttl =
      set
        (set (set (set buf (off + 4) (get_or buf (off + 7) 0)) (off + 7) (get_or buf (off + 4) 0))
          (off + 5) (get_or buf (off + 6) 0))
        (off + 6) (get_or buf (off + 5) 0) in
    swap16 off (swap16 (off + 2) (swap16 (off + 8) ttl))

-- the number that four bytes stand for on a little-endian machine
abbrev pub address_at : List ℕ → ℕ → ℕ
address_at buf off =
    get_or buf off 0
    + get_or buf (off + 1) 0 * 2 ^ 8
    + get_or buf (off + 2) 0 * 2 ^ 16
    + get_or buf (off + 3) 0 * 2 ^ 24

-- DNS_FLAG_QR is set, and the DNS_FLAG_RCODE_MASK part is DNS_FLAG_RCODE_OK.
abbrev pub flags_ok : ℕ → Bool
flags_ok flags = flags / 2 ^ 15 % 2 == 1 && flags % 16 == 0

-- What comes of a reply: its flags are refused, something behind the buffer is read, or the loops
-- end with the value of `i` and the address (0 if there is none).
pub data Reply : Type 0 where
  bad_flags behind : Reply
  scanned : ℕ → ℕ → Reply

-- the loop over the answers: `n` are left, and `i` were seen
unfoldable pub answer_loop : ℕ → ℕ → ℕ → List ℕ → Reply
answer_loop zero i off buf = scanned i 0
answer_loop (suc n) i off buf = elim (parse_name buf off) as (λ _. Reply) [
  | overrun ↦ behind
  | no_fuel ↦ behind
  | taken len ↦
      let at = off + len in
      let buf' = swap_answer at buf in
      let skip = answer_loop n (i + 1) (at + 10 + field16 buf (at + 8)) buf' in
      let found =
        if leb (length buf) (at + 13) then behind else scanned i (address_at buf' (at + 10)) in
      if leb (length buf) (at + 9)
      then behind
      else if field16 buf at == 1 && field16 buf (at + 2) == 1 && field16 buf (at + 8) == 4
      then found
      else skip
]

-- The loop over the questions, and then the answers. The loop over the questions leaves `i` at their
-- number, and that over the answers starts it again at 0.
unfoldable pub question_loop : ℕ → ℕ → ℕ → List ℕ → Reply
unfolding answer_loop
question_loop zero answers off buf = answer_loop answers 0 off buf
question_loop (suc n) answers off buf = elim (parse_name buf off) as (λ _. Reply) [
  | overrun ↦ behind
  | no_fuel ↦ behind
  | taken len ↦ question_loop n answers (off + len + 4) buf
]

-- The header's fields are turned in place too; nothing reads them again in the buffer. A reply that
-- is shorter than the header leaves some of them to what lies behind it.
unfoldable pub read_reply : List ℕ → Reply
unfolding question_loop
read_reply buf =
    if leb header_size (length buf)
    then (if flags_ok (field16 buf 2)
        then question_loop (field16 buf 4) (field16 buf 6) header_size buf
        else bad_flags)
    else behind
