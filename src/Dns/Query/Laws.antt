-- ===== src/Dns/Query/Laws.antt =====
-- The loop of `dns_lookup` in src/dns/cdns.c that turns a host name into labels, next to the wire
-- format of a name.
use lthread.Base.{
  ℕ, suc, ◌+◌, ◌-◌, ◌<◌, ◌≡◌, ◌≢◌, refl, ap, sym, ◌∙◌, subst, true, some, List, [], ◌∷◌, ◌++◌, ◌==◌,
  ◌||◌, length, get_or, set, length-append, append_assoc, arith,
}
use native.Mathlib.Nat.{mod-eq_of_lt}
use lthread.Dns.Query.{
  label_loop, build_query, with_host, query_header, question, put_question, zeros, label_fuel,
  header_size,
}

-- a byte of a label: neither the NUL nor the dot
abbrev pub IsLabelByte : ℕ → Type 0
IsLabelByte c = (c ≢ 0) × (c ≢ 46)

abbrev pub IsText : List ℕ → Type 0
IsText [] = Unit {0}
IsText (c ∷ cs) = IsLabelByte c × IsText cs

-- A label that DNS can carry here: not empty, below 256 bytes, without NUL and dot.
abbrev pub IsLabel : List ℕ → Type 0
IsLabel l = IsText l × (0 < length l) × (length l < 256)

abbrev pub AreLabels : List (List ℕ) → Type 0
AreLabels [] = Unit {0}
AreLabels (l ∷ ls) = IsLabel l × AreLabels ls

-- the host name that the labels `l ∷ ls` make
abbrev pub join : List ℕ → List (List ℕ) → List ℕ
join l [] = l
join l (m ∷ ls) = l ++ 46 ∷ join m ls

-- RFC 1035: each label behind its length, and the empty label at the end
abbrev pub wire : List (List ℕ) → List ℕ
wire [] = 0 ∷ []
wire (l ∷ ls) = length l ∷ (l ++ wire ls)

pub get_or_middle : (xs ys : List ℕ) (y : ℕ) → get_or (xs ++ y ∷ ys) (length xs) 0 ≡ y
get_or_middle [] ys y = refl
get_or_middle (x ∷ xs) ys y = get_or_middle xs ys y

set_middle : (xs ys : List ℕ) (y v : ℕ) → set (xs ++ y ∷ ys) (length xs) v ≡ xs ++ v ∷ ys
set_middle [] ys y v = refl
set_middle (x ∷ xs) ys y v = ap (λ l. x ∷ l) (set_middle xs ys y v)

-- the buffer in the middle of a label: `seen` of it was read, and `c` comes next
abbrev at : List ℕ → ℕ → List ℕ → ℕ → List ℕ → List ℕ
at pre x seen c more = pre ++ x ∷ (seen ++ c ∷ more)

module _ (pre seen more : List ℕ) (x c : ℕ) where
  get_next : get_or (at pre x seen c more) (length pre + 1 + length seen) 0 ≡ c
  get_next =
      subst (λ (b : List ℕ). get_or b (length pre + 1 + length seen) 0 ≡ c)
        (append_assoc pre (x ∷ seen) (c ∷ more))
        (subst (λ (n : ℕ). get_or ((pre ++ x ∷ seen) ++ c ∷ more) n 0 ≡ c)
          (omega (arith, length-append pre (x ∷ seen))) (get_or_middle (pre ++ x ∷ seen) more c))

  put_length : (v : ℕ) → set (at pre x seen c more) (length pre + 1 - 1) v ≡ at pre v seen c more
  put_length v =
      subst (λ (n : ℕ). set (at pre x seen c more) n v ≡ at pre v seen c more) {x = length pre}
        (omega arith) (set_middle pre (seen ++ c ∷ more) x v)

module _ (buf : List ℕ) (f ptr len : ℕ) where
  -- one more byte of a label
  loop_byte :
      get_or buf ptr 0 ≢ 0
      → IsLabelByte (get_or buf (ptr + len) 0)
      → label_loop (suc f) ptr len buf ≡ label_loop f ptr (len + 1) buf
  unfolding label_loop
  loop_byte start ok = ground (arith, start, ok)

  -- the end of a label
  loop_end :
      get_or buf ptr 0 ≢ 0
      → (get_or buf (ptr + len) 0 == 46 || get_or buf (ptr + len) 0 == 0) ≡ true
      → len < 256
      → label_loop (suc f) ptr len buf ≡ label_loop f (ptr + len + 1) 0 (set buf (ptr - 1) len)
  unfolding label_loop
  loop_end start stop small =
      ground (arith, start, stop, ap (set buf (ptr - 1)) (mod-eq_of_lt small))

  -- the end of the name
  loop_stop : get_or buf ptr 0 ≡ 0 → label_loop (suc f) ptr len buf ≡ some buf
  unfolding label_loop
  loop_stop stop = ground (arith, stop)

-- The rest of a label is scanned.
scan :
    (pre seen todo rest : List ℕ) (x f : ℕ) (buf : List ℕ)
    → buf ≡ pre ++ x ∷ (seen ++ (todo ++ rest))
    → get_or buf (length pre + 1) 0 ≢ 0
    → IsText todo
    → label_loop (length todo + f) (length pre + 1) (length seen) buf
      ≡ label_loop f (length pre + 1) (length seen + length todo) buf
scan pre seen [] rest x f buf e start text =
    ap (λ g. label_loop g (length pre + 1) (length seen) buf) {y = f} (omega arith)
    ∙ ap (λ n. label_loop f (length pre + 1) n buf) {y = length seen + 0} (omega arith)
scan pre seen (t ∷ ts) rest x f buf e start (ok, text) =
    let byte : get_or buf (length pre + 1 + length seen) 0 ≡ t =
      ap (λ b. get_or b (length pre + 1 + length seen) 0) e ∙ get_next pre seen (ts ++ rest) x t in
    ap (λ g. label_loop g (length pre + 1) (length seen) buf) {y = suc (length ts + f)}
      (omega arith)
    ∙ loop_byte buf (length ts + f) (length pre + 1) (length seen) start
        (subst IsLabelByte (sym byte) ok)
    ∙ ap (λ n. label_loop (length ts + f) (length pre + 1) n buf)
        (omega (arith, length-append seen (t ∷ [])))
    ∙ scan pre (seen ++ t ∷ []) ts rest x f buf
        (e ∙ ap (λ l. pre ++ x ∷ l) (sym (append_assoc seen (t ∷ []) (ts ++ rest)))) start text
    ∙ ap (λ n. label_loop f (length pre + 1) n buf) (omega (arith, length-append seen (t ∷ [])))

-- `l` is the label that follows `x`, and `c` ends it.
label_step :
    (pre l more : List ℕ) (x c f : ℕ)
    → IsLabel l
    → (c == 46 || c == 0) ≡ true
    → label_loop (suc (length l + f)) (length pre + 1) 0 (at pre x l c more)
      ≡ label_loop f (length (pre ++ length l ∷ l) + 1) 0 ((pre ++ length l ∷ l) ++ c ∷ more)
label_step pre [] more x c f (text, pos, small) stop = absurd (omega (arith, pos))
label_step pre (t ∷ ts) more x c f (text, pos, small) stop =
    let l : List ℕ = t ∷ ts in
    let buf = at pre x l c more in
    let start : get_or buf (length pre + 1) 0 ≢ 0 =
      subst (λ (n : ℕ). n ≢ 0)
        (sym (get_next pre [] (ts ++ c ∷ more) x t)
          ∙ ap (λ n. get_or buf n 0) {x = length pre + 1 + 0} {y = length pre + 1} (omega arith))
        text.0.0 in
    let next = get_next pre l more x c in
    ap (λ g. label_loop g (length pre + 1) 0 buf) {y = length l + suc f} (omega arith)
    ∙ scan pre [] l (c ∷ more) x (suc f) buf refl start text
    ∙ ap (λ n. label_loop (suc f) (length pre + 1) n buf) {y = length l} (omega arith)
    ∙ loop_end buf f (length pre + 1) (length l) start
        (subst (λ (b : ℕ). (b == 46 || b == 0) ≡ true) (sym next) stop) small
    ∙ ap (λ b. label_loop f (length pre + 1 + length l + 1) 0 b)
        (put_length pre l more x c (length l) ∙ sym (append_assoc pre (length l ∷ l) (c ∷ more)))
    ∙ ap (λ n. label_loop f n 0 ((pre ++ length l ∷ l) ++ c ∷ more))
        (omega (arith, length-append pre (length l ∷ l)))

-- The whole name, with `x` in the place of the first length.
encode :
    (pre l : List ℕ) (ls : List (List ℕ)) (tail : List ℕ) (x f : ℕ)
    → IsLabel l
    → AreLabels ls
    → label_loop
        (suc (suc (length (join l ls) + f)))
        (length pre + 1)
        0
        (pre ++ x ∷ (join l ls ++ 0 ∷ 0 ∷ tail))
      ≡ some (pre ++ (wire (l ∷ ls) ++ 0 ∷ tail))
encode pre l [] tail x f ok oks =
    ap (λ g. label_loop g (length pre + 1) 0 (at pre x l 0 (0 ∷ tail)))
      {x = suc (suc (length l + f))} {y = suc (length l + suc f)} (omega arith)
    ∙ label_step pre l (0 ∷ tail) x 0 (suc f) ok refl
    ∙ loop_stop ((pre ++ length l ∷ l) ++ 0 ∷ 0 ∷ tail) f (length (pre ++ length l ∷ l) + 1) 0 (
        ap (λ n. get_or ((pre ++ length l ∷ l) ++ 0 ∷ 0 ∷ tail) n 0)
          {y = length (pre ++ length l ∷ l) + 1 + 0} (omega arith)
        ∙ get_next (pre ++ length l ∷ l) [] tail 0 0)
    ∙ ap some (
        append_assoc pre (length l ∷ l) (0 ∷ 0 ∷ tail)
        ∙ ap (λ r. pre ++ length l ∷ r) (sym (append_assoc l (0 ∷ []) (0 ∷ tail))))
encode pre l (m ∷ ls) tail x f ok (okm, oks) =
    let more = join m ls ++ 0 ∷ 0 ∷ tail in
    let pre' = pre ++ length l ∷ l in
    let w = wire (m ∷ ls) in
    ap
      (λ b.
        label_loop (suc (suc (length (l ++ 46 ∷ join m ls) + f))) (length pre + 1) 0 (pre ++ x ∷ b))
      (append_assoc l (46 ∷ join m ls) (0 ∷ 0 ∷ tail))
    ∙ ap (λ g. label_loop g (length pre + 1) 0 (at pre x l 46 more))
        {y = suc (length l + suc (suc (length (join m ls) + f)))}
        (omega (arith, length-append l (46 ∷ join m ls)))
    ∙ label_step pre l more x 46 (suc (suc (length (join m ls) + f))) ok refl
    ∙ encode pre' m ls tail 46 f okm oks
    ∙ ap some (
        append_assoc pre (length l ∷ l) (w ++ 0 ∷ tail)
        ∙ ap (λ r. pre ++ length l ∷ r) (sym (append_assoc l w (0 ∷ tail))))

pub length-wire :
    (l : List ℕ) (ls : List (List ℕ)) → length (wire (l ∷ ls)) ≡ length (join l ls) + 2
length-wire l [] = omega (arith, length-append l (0 ∷ []))
length-wire l (m ∷ ls) =
    omega
      (arith, length-append l (wire (m ∷ ls)), length-append l (46 ∷ join m ls), length-wire m ls)

put_question-tail :
    (xs : List ℕ) (y : ℕ) (ys : List ℕ) → put_question (length xs) (xs ++ y ∷ ys) ≡ xs ++ question
put_question-tail [] y ys = refl
put_question-tail (x ∷ xs) y ys = ap (λ l. x ∷ l) (put_question-tail xs y ys)

build_query_run :
    (id : ℕ) (host : List ℕ) {buf : List ℕ}
    → label_loop (label_fuel host) (header_size + 1) 0 (with_host (query_header id) host) ≡ some buf
    → build_query id host ≡ some (put_question (header_size + length host + 2) buf)
unfolding build_query
build_query_run id host run = rw (run, build_query)

question_follows :
    (header w : List ℕ) (y n : ℕ) (ys : List ℕ)
    → n ≡ length header + length w
    → put_question n (header ++ (w ++ y ∷ ys)) ≡ header ++ (w ++ question)
question_follows header w y n ys e =
    rw (e, ← length-append {0} header w, ← append_assoc header w (y ∷ ys))
      (put_question-tail (header ++ w) y ys ∙ append_assoc header w question)

-- The query for a host name that is labels joined by dots, each neither empty nor longer than 255
-- bytes and without a zero byte or a dot, is the header, the labels in the wire format of RFC 1035
-- (each behind its length, then a zero byte) and the question for an IPv4 address. In particular
-- the loop over the name ends.
pub build_query-wire :
    (id : ℕ) (l : List ℕ) (ls : List (List ℕ))
    → IsLabel l
    → AreLabels ls
    → build_query id (join l ls) ≡ some (query_header id ++ (wire (l ∷ ls) ++ question))
build_query-wire id l ls ok oks =
    let run = encode (query_header id) l ls (zeros 3) 0 0 ok oks in
    build_query_run id (join l ls) (
      ap (λ g. label_loop g 13 0 (with_host (query_header id) (join l ls)))
        {x = label_fuel (join l ls)} {y = suc (suc (length (join l ls) + 0))} (omega arith)
      ∙ run)
    ∙ ap some (
        question_follows (query_header id) (wire (l ∷ ls)) 0 (12 + length (join l ls) + 2) (zeros 3)
          (omega (arith, length-wire l ls)))
