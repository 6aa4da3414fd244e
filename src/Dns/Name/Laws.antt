-- ===== src/Dns/Name/Laws.antt =====
-- The walk over a name in src/dns/cdns.c: that it ends, and what it counts.
use lthread.Base.{
  ℕ, zero, suc, ◌+◌, ◌-◌, ◌%◌, ◌≤◌, ◌<◌, ◌≡◌, ◌≢◌, ap, sym, ◌∙◌, Bool, true, false, some, List, [],
  ◌∷◌, ◌++◌, length, get_or, length-append, append_assoc, arith, if◌then◌else◌,
}
use lthread.Dns.Query.{build_query, query_header, question}
use lthread.Dns.Query.Laws.{
  IsLabel, AreLabels, build_query-wire, join, wire, get_or_middle, length-wire,
}
use lthread.Dns.Name.{taken, no_fuel, name_loop, parse_name, name_fuel}

-- how many rounds may follow
abbrev rounds : List ℕ → ℕ → Bool → ℕ
rounds buf off followed = length buf - off + (if followed then 0 else suc (length buf))

-- `overrun` is possible for any buffer that holds no 0.
name_loop-ends :
    (f : ℕ) (buf : List ℕ) (off : ℕ) (followed : Bool) (len : ℕ)
    → rounds buf off followed < f
    → name_loop f buf off followed len ≢ no_fuel
unfolding name_loop
name_loop-ends zero buf off followed len enough = absurd (omega (arith, enough))
name_loop-ends (suc f) buf off true len enough =
    ground (arith, name_loop-ends f buf (off + get_or buf off 0 + 1) true len)
name_loop-ends (suc f) buf off false len enough = ground (
  arith,
  name_loop-ends f buf (12 + get_or buf off 0 % 64) true (len + 1),
  name_loop-ends f buf (off + get_or buf off 0 + 1) false (len + (get_or buf off 0 + 1)),
)

-- parse_dns_name ends on any buffer, from any place in it: it follows at most one pointer.
pub parse_name-ends : (buf : List ℕ) (off : ℕ) → parse_name buf off ≢ no_fuel
unfolding parse_name
parse_name-ends buf off = name_loop-ends (name_fuel buf) buf off false 1 (omega arith)

-- RFC 1035 allows 63 bytes in a label.
abbrev pub AreShort : List (List ℕ) → Type 0
AreShort [] = Unit {0}
AreShort (l ∷ ls) = (0 < length l) × (length l < 64) × AreShort ls

abbrev pub after : List ℕ → List ℕ → List ℕ → List ℕ
after pre w rest = pre ++ (w ++ rest)

walk_label :
    (pre l w rest : List ℕ) (f len : ℕ)
    → 0 < length l
    → length l < 64
    → name_loop (suc f) (after pre (length l ∷ (l ++ w)) rest) (length pre) false len
      ≡ name_loop f
          (after pre (length l ∷ (l ++ w)) rest)
          (length pre + length l + 1)
          false
          (len + (length l + 1))
unfolding name_loop
walk_label pre l w rest f len pos small = ground (
  arith,
  get_or_middle pre ((l ++ w) ++ rest) (length l),
  length-append pre (length l ∷ ((l ++ w) ++ rest)),
)

walk_end :
    (pre rest : List ℕ) (f len : ℕ)
    → name_loop (suc f) (after pre (0 ∷ []) rest) (length pre) false len ≡ taken len
unfolding name_loop
walk_end pre rest f len = ground (arith, get_or_middle pre rest 0, length-append pre (0 ∷ rest))

wire_pos : (ls : List (List ℕ)) → 0 < length (wire ls)
wire_pos [] = omega arith
wire_pos (l ∷ ls) = omega arith

walk_wire :
    (pre : List ℕ) (ls : List (List ℕ)) (rest : List ℕ) (f len : ℕ)
    → AreShort ls
    → name_loop (suc (length ls + f)) (after pre (wire ls) rest) (length pre) false len
      ≡ taken (len + length (wire ls) - 1)
walk_wire pre [] rest f len short = walk_end pre rest (0 + f) len ∙ ap taken (omega arith)
walk_wire pre (l ∷ ls) rest f len (pos, small, short) =
    let w = wire ls in
    let pre' = pre ++ length l ∷ l in
    let moved : after pre (wire (l ∷ ls)) rest ≡ after pre' w rest =
      ap (λ r. pre ++ length l ∷ r) (append_assoc l w rest)
      ∙ sym (append_assoc pre (length l ∷ l) (w ++ rest)) in
    walk_label pre l w rest (suc (length ls) + f) len pos small
    ∙ ap
        (λ b.
          name_loop (suc (length ls) + f) b (length pre + length l + 1) false
            (len + (length l + 1)))
        moved
    ∙ ap (λ n. name_loop (suc (length ls) + f) (after pre' w rest) n false (len + (length l + 1)))
        {y = length pre'} (omega (arith, length-append pre (length l ∷ l)))
    ∙ ap (λ g. name_loop g (after pre' w rest) (length pre') false (len + (length l + 1)))
        {y = suc (length ls + f)} (omega arith)
    ∙ walk_wire pre' ls rest f (len + (length l + 1)) short
    ∙ ap taken (omega (arith, length-append l w, wire_pos ls))

pub labels-le-wire : (ls : List (List ℕ)) → length ls ≤ length (wire ls)
labels-le-wire [] = omega arith
labels-le-wire (l ∷ ls) = omega (arith, labels-le-wire ls, length-append l (wire ls))

-- A name of labels of one to 63 bytes, at the index `length pre` of a buffer: the walk over it takes
-- as many bytes as the name has on the wire.
pub parse_name-wire :
    (pre : List ℕ) (ls : List (List ℕ)) (rest : List ℕ)
    → AreShort ls
    → parse_name (after pre (wire ls) rest) (length pre) ≡ taken (length (wire ls))
unfolding parse_name
parse_name-wire pre ls rest short =
    let buf = after pre (wire ls) rest in
    let room : length ls ≤ length buf = omega (
      arith,
      labels-le-wire ls,
      length-append pre (wire ls ++ rest),
      length-append (wire ls) rest,
    ) in
    ap (λ g. name_loop g buf (length pre) false 1) {x = name_fuel buf}
      {y = suc (length ls + (length buf + suc (length buf) - length ls))} (omega (arith, room))
    ∙ walk_wire pre ls rest (length buf + suc (length buf) - length ls) 1 short
    ∙ ap taken (omega (arith, wire_pos ls))

-- In a query for a host name that is labels joined by dots, each with 1 to 63 bytes and none of
-- them a zero byte or a dot, parse_dns_name at the end of the header sets the length to two more
-- than that of the host name, so the caller gets past the name.
pub parse_name-build_query :
    (id : ℕ) (l : List ℕ) (ls : List (List ℕ))
    → IsLabel l
    → AreLabels ls
    → AreShort (l ∷ ls)
    → (buf : List ℕ) × (build_query id (join l ls) ≡ some buf)
      × (parse_name buf 12 ≡ taken (length (join l ls) + 2))
parse_name-build_query id l ls ok oks short = (
  query_header id ++ (wire (l ∷ ls) ++ question),
  build_query-wire id l ls ok oks,
  parse_name-wire (query_header id) (l ∷ ls) question short ∙ ap taken (length-wire l ls),
)
