-- ===== src/Dns/Query.antt =====
-- The query that `dns_lookup` of src/dns/cdns.c sends.
pub mod Laws
use lthread.Base.{
  ℕ, zero, suc, ◌+◌, ◌-◌, ◌%◌, ◌/◌, Option, none, some, List, [], ◌∷◌, ◌++◌, ◌==◌, ◌||◌,
  if◌then◌else◌, length, get_or, set,
}

abbrev pub zeros : ℕ → List ℕ
zeros zero = []
zeros (suc n) = 0 ∷ zeros n

-- a 16-bit field after `swab`: the high byte first
abbrev pub be16 : ℕ → List ℕ
be16 n = n / 256 % 256 ∷ n % 256 ∷ []

-- `DNSQuery` with the identifier `id`, DNS_FLAG_RD, and one question
abbrev pub query_header : ℕ → List ℕ
query_header id = be16 id ++ be16 0x100 ++ be16 1 ++ zeros 6

-- sizeof(DNSQuery)
abbrev pub header_size : ℕ
header_size = 12

-- `DNSQuestion`: DNS_TYPE_A and DNS_CLASS_IN
abbrev pub question : List ℕ
question = be16 1 ++ be16 1

-- The buffer after the host name was copied in, behind one byte for the first length. The bytes
-- behind its NUL are those of the question, which are still 0.
abbrev pub with_host : List ℕ → List ℕ → List ℕ
with_host header host = header ++ 0 ∷ (host ++ 0 ∷ zeros 4)

-- The loop that turns the dots into lengths: `ptr` is the start of a label and `len` what was seen of
-- it. None when the fuel runs out.
unfoldable pub label_loop : ℕ → ℕ → ℕ → List ℕ → Option (List ℕ)
label_loop zero ptr len buf = none
label_loop (suc f) ptr len buf =
    let c = get_or buf (ptr + len) 0 in
    let next = label_loop f (ptr + len + 1) 0 (set buf (ptr - 1) (len % 256)) in
    let more = label_loop f ptr (len + 1) buf in
    let round = if c == 46 || c == 0 then next else more in
    if get_or buf ptr 0 == 0 then some buf else round

-- one round for each byte of the host, one for its NUL, and one for the test that ends the loop
abbrev pub label_fuel : List ℕ → ℕ
label_fuel host = suc (suc (length host))

-- The query on the wire: the labels, and the question in place of the last four bytes.
abbrev pub put_question : ℕ → List ℕ → List ℕ
put_question n [] = []
put_question zero (b ∷ bs) = question
put_question (suc n) (b ∷ bs) = b ∷ put_question n bs

unfoldable pub build_query : ℕ → List ℕ → Option (List ℕ)
build_query id host =
    elim (label_loop (label_fuel host) (header_size + 1) 0 (with_host (query_header id) host)) [
      | none ↦ none
      | some buf ↦ some (put_question (header_size + length host + 2) buf)
    ]
