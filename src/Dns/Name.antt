-- ===== src/Dns/Name.antt =====
-- `parse_dns_name` of src/dns/cdns.c, which walks over a name of a reply and yields the number of
-- bytes that the name takes.
pub mod Laws
use lthread.Base.{
  ℕ, zero, suc, ◌+◌, ◌/◌, ◌%◌, Bool, true, false, List, [], ◌∷◌, ◌==◌, ◌&&◌, leb, if◌then◌else◌,
  not, length, get_or,
}
use lthread.Dns.Query.{header_size}

-- How the walk ends: with the length, with a read behind the buffer, or without fuel.
pub data Walk : Type 0 where
  taken : ℕ → Walk
  overrun no_fuel : Walk

-- `*offset & 0xC0` is 0xC0
abbrev pub is_pointer : ℕ → Bool
is_pointer b = b / 64 == 3

-- The loop, at the index `off` of the buffer. A pointer is followed once; its target is taken from
-- the low six bits of its first byte. `*offset > dmax` is false of a byte, and `dlen` is not read.
unfoldable pub name_loop : ℕ → List ℕ → ℕ → Bool → ℕ → Walk
name_loop zero buf off followed len = no_fuel
name_loop (suc f) buf off followed len =
    let b = get_or buf off 0 in
    let jump = name_loop f buf (header_size + b % 64) true (len + 1) in
    let step = name_loop f buf (off + b + 1) followed (if followed then len else len + (b + 1)) in
    if leb (length buf) off
    then overrun
    else if b == 0
    then taken len
    else if not followed && is_pointer b
    then jump
    else step

-- Each byte is looked at twice at most, once before and once after a jump.
abbrev pub name_fuel : List ℕ → ℕ
name_fuel buf = suc (length buf + suc (length buf))

unfoldable pub parse_name : List ℕ → ℕ → Walk
unfolding name_loop
parse_name buf off = name_loop (name_fuel buf) buf off false 1
