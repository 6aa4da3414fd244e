-- ===== src/Dns/Answer.antt =====
-- The answers of a reply, as `dns_lookup` of src/dns/cdns.c reads them: a reply that gives the name of
-- each answer by the usual pointer to the question.
pub mod Laws
use lthread.Base.{
  ℕ, zero, suc, ◌+◌, ◌-◌, ◌*◌, ◌/◌, ◌%◌, ◌^◌, ◌≤◌, ◌<◌, ◌≡◌, ◌≢◌, refl, ap, sym, ◌∙◌, Bool, true,
  false, List, [], ◌∷◌, ◌++◌, ◌==◌, ◌&&◌, length, get_or, set, length-append, append_assoc, arith,
  if◌then◌else◌,
}
use lthread.Dns.Query.{be16, zeros, question}
use lthread.Dns.Query.Laws.{wire, get_or_middle}
use lthread.Dns.Name.{Walk, taken, name_loop, parse_name, name_fuel}
use lthread.Dns.Name.Laws.{AreShort, after, parse_name-wire, labels-le-wire}
use lthread.Dns.Reply.{
  field16, swap16, swap_answer, address_at, flags_ok, Reply, scanned, answer_loop, question_loop,
  read_reply,
}

pub get_or_at :
    (pre rest : List ℕ) (i k : ℕ) → i ≡ length pre + k → get_or (pre ++ rest) i 0 ≡ get_or rest k 0
get_or_at [] rest i k e = ap (λ x. get_or rest x 0) (e ∙ omega arith)
get_or_at (x ∷ pre) rest zero k e = absurd (omega arith)
get_or_at (x ∷ pre) rest (suc i) k e = get_or_at pre rest i k (omega arith)

set_at :
    (pre rest : List ℕ) (i k v : ℕ)
    → i ≡ length pre + k
    → set (pre ++ rest) i v ≡ pre ++ set rest k v
set_at [] rest i k v e = ap (λ x. set rest x v) (e ∙ omega arith)
set_at (x ∷ pre) rest zero k v e = absurd (omega arith)
set_at (x ∷ pre) rest (suc i) k v e = ap (λ l. x ∷ l) (set_at pre rest i k v (omega arith))

swap16_at :
    (pre rest : List ℕ) (i k : ℕ)
    → i ≡ length pre + k
    → swap16 i (pre ++ rest) ≡ pre ++ swap16 k rest
swap16_at pre rest i k e =
    rw
      (
        get_or_at pre rest i k e,
        get_or_at pre rest (i + 1) (k + 1) (omega arith),
        set_at pre rest i k (get_or rest (k + 1) 0) e,
      )
      (set_at pre (set rest k (get_or rest (k + 1) 0)) (i + 1) (k + 1) (get_or rest k 0)
        (omega arith))

-- the time to live at the index `k`, turned around
abbrev swap_ttl : ℕ → List ℕ → List ℕ
swap_ttl k l =
    set
      (set (set (set l (k + 4) (get_or l (k + 7) 0)) (k + 7) (get_or l (k + 4) 0)) (k + 5)
        (get_or l (k + 6) 0))
      (k + 6) (get_or l (k + 5) 0)

swap_ttl_at :
    (pre rest : List ℕ) (i : ℕ)
    → i ≡ length pre + 2
    → swap_ttl i (pre ++ rest) ≡ pre ++ swap_ttl 2 rest
swap_ttl_at pre rest i e =
    let g4 = get_or rest 6 0 in
    let g5 = get_or rest 7 0 in
    let g6 = get_or rest 8 0 in
    let g7 = get_or rest 9 0 in
    let r1 = set rest 6 g7 in
    let r2 = set r1 9 g4 in
    let r3 = set r2 7 g6 in
    rw
      (
        get_or_at pre rest (i + 4) 6 (omega arith),
        get_or_at pre rest (i + 5) 7 (omega arith),
        get_or_at pre rest (i + 6) 8 (omega arith),
        get_or_at pre rest (i + 7) 9 (omega arith),
        set_at pre rest (i + 4) 6 g7 (omega arith),
        set_at pre r1 (i + 7) 9 g4 (omega arith),
        set_at pre r2 (i + 5) 7 g6 (omega arith),
      )
      (set_at pre r3 (i + 6) 8 g5 (omega arith))

swap_answer_at :
    (pre rest : List ℕ) (i : ℕ)
    → i ≡ length pre + 2
    → swap_answer i (pre ++ rest) ≡ pre ++ swap_answer 2 rest
swap_answer_at pre rest i e =
    let r1 = swap_ttl 2 rest in
    let r2 = swap16 10 r1 in
    ap (λ l. swap16 i (swap16 (i + 2) (swap16 (i + 8) l))) (swap_ttl_at pre rest i e)
    ∙ ap (λ l. swap16 i (swap16 (i + 2) l)) (swap16_at pre r1 (i + 8) 10 (omega arith))
    ∙ ap (λ l. swap16 i l) (swap16_at pre r2 (i + 2) 4 (omega arith))
    ∙ swap16_at pre (swap16 4 r2) i 2 e

-- a walk over a name that a pointer leads to
walk_followed :
    (pre : List ℕ) (ls : List (List ℕ)) (rest : List ℕ) (f len : ℕ)
    → AreShort ls
    → name_loop (suc (length ls + f)) (after pre (wire ls) rest) (length pre) true len ≡ taken len
unfolding name_loop
walk_followed pre [] rest f len short =
    ground (arith, get_or_middle pre rest 0, length-append pre (0 ∷ rest))
walk_followed pre (l ∷ ls) rest f len (pos, small, short) =
    let pre' = pre ++ length l ∷ l in
    let moved : after pre (wire (l ∷ ls)) rest ≡ after pre' (wire ls) rest =
      ap (λ r. pre ++ length l ∷ r) (append_assoc l (wire ls) rest)
      ∙ sym (append_assoc pre (length l ∷ l) (wire ls ++ rest)) in
    let buf = after pre (wire (l ∷ ls)) rest in
    let one : name_loop (suc (suc (length ls) + f)) buf (length pre) true len
        ≡ name_loop (suc (length ls) + f) buf (length pre + length l + 1) true len =
      ground (
        arith,
        get_or_middle pre ((l ++ wire ls) ++ rest) (length l),
        length-append pre (length l ∷ ((l ++ wire ls) ++ rest)),
      ) in
    one
    ∙ ap (λ b. name_loop (suc (length ls) + f) b (length pre + length l + 1) true len) moved
    ∙ ap (λ n. name_loop (suc (length ls) + f) (after pre' (wire ls) rest) n true len)
        {y = length pre'} (omega (arith, length-append pre (length l ∷ l)))
    ∙ ap (λ g. name_loop g (after pre' (wire ls) rest) (length pre') true len)
        {y = suc (length ls + f)} (omega arith)
    ∙ walk_followed pre' ls rest f len short

-- the part of a reply before an answer: the header, the name of the question, and what lies between
abbrev pub upto : List ℕ → List (List ℕ) → List ℕ → List ℕ
upto h ls mid = h ++ (wire ls ++ mid)

pub pointer_lem :
    (h : List ℕ) (ls : List (List ℕ)) (mid rest : List ℕ)
    → length h ≡ 12
    → AreShort ls
    → parse_name (upto h ls mid ++ (192 ∷ 12 ∷ rest)) (length (upto h ls mid)) ≡ taken 2
unfolding parse_name name_loop
pointer_lem h ls mid rest eh short =
    let pre = upto h ls mid in
    let buf = pre ++ (192 ∷ 12 ∷ rest) in
    let tail = mid ++ (192 ∷ 12 ∷ rest) in
    let moved : buf ≡ after h (wire ls) tail =
      append_assoc h (wire ls ++ mid) (192 ∷ 12 ∷ rest)
      ∙ ap (λ l. h ++ l) (append_assoc (wire ls) mid (192 ∷ 12 ∷ rest)) in
    let n = length buf in
    let room : length ls ≤ n = omega (
      arith,
      ap length moved,
      labels-le-wire ls,
      length-append h (wire ls ++ tail),
      length-append (wire ls) tail,
    ) in
    let jump : name_loop (suc (n + suc n)) buf (length pre) false 1
        ≡ name_loop (n + suc n) buf 12 true 2 =
      ground (arith, get_or_middle pre (12 ∷ rest) 192, length-append pre (192 ∷ 12 ∷ rest)) in
    jump
    ∙ ap (λ g. name_loop g buf 12 true 2) {y = suc (length ls + (n + n - length ls))}
        (omega (arith, room))
    ∙ ap (λ x. name_loop (suc (length ls + (n + n - length ls))) buf x true 2) (sym eh)
    ∙ ap (λ b. name_loop (suc (length ls + (n + n - length ls))) b (length h) true 2) moved
    ∙ walk_followed h ls tail (n + n - length ls) 2 short

-- an answer: its `DNSAnswer` and the data behind it; the name is the pointer c0 0c
pub record Answer : Type 0 where
  pub type_ : ℕ
  pub class_ : ℕ
  pub t0 : ℕ
  pub t1 : ℕ
  pub t2 : ℕ
  pub t3 : ℕ
  pub data_ : List ℕ

abbrev pub encoded : Answer → List ℕ
encoded r =
    192
    ∷ 12
    ∷ (be16 r.type_
        ++ be16 r.class_
        ++ (r.t0 ∷ r.t1 ∷ r.t2 ∷ r.t3 ∷ be16 (length r.data_))
        ++ r.data_)

-- the same once its fields are turned around
abbrev pub turned : Answer → List ℕ
turned r =
    192
    ∷ 12
    ∷ r.type_ % 256
    ∷ r.type_ / 256 % 256
    ∷ r.class_ % 256
    ∷ r.class_ / 256 % 256
    ∷ r.t3
    ∷ r.t2
    ∷ r.t1
    ∷ r.t0
    ∷ length r.data_ % 256
    ∷ length r.data_ / 256 % 256
    ∷ r.data_

abbrev pub Fits : Answer → Type 0
Fits r = (r.type_ < 2 ^ 16) × (r.class_ < 2 ^ 16) × (length r.data_ < 2 ^ 16)

pub field16_at :
    (pre rest : List ℕ) (i k v : ℕ)
    → v < 2 ^ 16
    → i ≡ length pre + k
    → get_or rest k 0 ≡ v / 256 % 256
    → get_or rest (k + 1) 0 ≡ v % 256
    → field16 (pre ++ rest) i ≡ v
field16_at pre rest i k v small e hi lo =
    omega
      (arith, get_or_at pre rest i k e, get_or_at pre rest (i + 1) (k + 1) (omega arith), hi, lo)

module _ (h : List ℕ) (ls : List (List ℕ)) (eh : length h ≡ 12) (short : AreShort ls) where
  module _ (mid more : List ℕ) (r : Answer) (fits : Fits r) where
    abbrev pub whole : List ℕ
    whole = upto h ls mid ++ (encoded r ++ more)

    pub type_at : field16 whole (length (upto h ls mid) + 2) ≡ r.type_
    type_at = field16_at (upto h ls mid) (encoded r ++ more) _ 2 r.type_ fits.0 refl refl refl

    pub class_at : field16 whole (length (upto h ls mid) + 2 + 2) ≡ r.class_
    class_at =
        field16_at (upto h ls mid) (encoded r ++ more) _ 4 r.class_ fits.1 (omega arith) refl refl

    pub length_at : field16 whole (length (upto h ls mid) + 2 + 8) ≡ length r.data_
    length_at =
        field16_at (upto h ls mid) (encoded r ++ more) _ 10 (length r.data_) fits.2 (omega arith)
          refl refl

    pub turned_lem :
        swap_answer (length (upto h ls mid) + 2) whole ≡ upto h ls mid ++ (turned r ++ more)
    turned_lem = swap_answer_at (upto h ls mid) (encoded r ++ more) _ refl

    pub length-whole : length whole ≡ length (upto h ls mid) + 12 + length r.data_ + length more
    length-whole =
        omega
          (arith, length-append (upto h ls mid) (encoded r ++ more), length-append (encoded r) more)
