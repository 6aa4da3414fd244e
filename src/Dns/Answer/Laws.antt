-- ===== src/Dns/Answer/Laws.antt =====
-- The address that `dns_lookup` of src/dns/cdns.c finds in a reply.
use lthread.Base.{
  ℕ, suc, ◌+◌, ◌*◌, ◌^◌, ◌<◌, ◌≡◌, refl, ap, sym, ◌∙◌, Bool, true, false, List, [], ◌∷◌, ◌++◌, ◌==◌,
  ◌&&◌, leb, length, length-append, append_assoc, arith,
}
use lthread.Dns.Query.{be16, question}
use lthread.Dns.Query.Laws.{wire}
use lthread.Dns.Name.Laws.{AreShort, parse_name-wire}
use lthread.Dns.Reply.{field16, flags_ok, scanned, answer_loop, question_loop, read_reply}
use lthread.Dns.Answer.{
  upto, pointer_lem, Answer, encoded, turned, Fits, whole, type_at, class_at, length_at, turned_lem,
  length-whole, get_or_at,
}

-- the test for an IPv4 address
abbrev pub is_address : Answer → Bool
is_address r = r.type_ == 1 && r.class_ == 1 && length r.data_ == 4

abbrev pub address_answer : ℕ → ℕ → ℕ → ℕ → ℕ → ℕ → ℕ → ℕ → Answer
address_answer a b c d t0 t1 t2 t3 = record {
  type_ = 1;
  class_ = 1;
  t0 = t0;
  t1 = t1;
  t2 = t2;
  t3 = t3;
  data_ = a ∷ b ∷ c ∷ d ∷ [];
}

module _ (h : List ℕ) (ls : List (List ℕ)) (eh : length h ≡ 12) (short : AreShort ls) where
  module _ (mid more : List ℕ) (r : Answer) (fits : Fits r) (n i : ℕ) where
    skip_lem :
        is_address r ≡ false
        → answer_loop (suc n) i (length (upto h ls mid)) (whole h ls eh short mid more r fits)
          ≡ answer_loop n
              (i + 1)
              (length (upto h ls (mid ++ turned r)))
              (upto h ls (mid ++ turned r) ++ more)
    unfolding answer_loop
    skip_lem other =
        let pre = upto h ls mid in
        let next : upto h ls (mid ++ turned r) ≡ pre ++ turned r = sym (
          append_assoc h (wire ls ++ mid) (turned r)
          ∙ ap (λ l. h ++ l) (append_assoc (wire ls) mid (turned r))) in
        let room : leb (length (whole h ls eh short mid more r fits)) (length pre + 2 + 9) ≡ false =
          ground (arith, length-whole h ls eh short mid more r fits) in
        rw
          (
            answer_loop,
            pointer_lem h ls mid _ eh short,
            type_at h ls eh short mid more r fits,
            class_at h ls eh short mid more r fits,
            length_at h ls eh short mid more r fits,
            turned_lem h ls eh short mid more r fits,
            room,
            other,
          )
          (ap (λ b. answer_loop n (i + 1) (length pre + 2 + 10 + length r.data_) b)
              (sym (append_assoc pre (turned r) more) ∙ ap (λ l. l ++ more) (sym next))
            ∙ ap (λ x. answer_loop n (i + 1) x (upto h ls (mid ++ turned r) ++ more))
                (omega (arith, ap length next, length-append pre (turned r))))

  module _ (mid more : List ℕ) (n i a b c d t0 t1 t2 t3 : ℕ) where
    found_lem :
        answer_loop
          (suc n)
          i
          (length (upto h ls mid))
          (upto h ls mid ++ (encoded (address_answer a b c d t0 t1 t2 t3) ++ more))
        ≡ scanned i (a + b * 2 ^ 8 + c * 2 ^ 16 + d * 2 ^ 24)
    unfolding answer_loop
    found_lem =
        let r = (address_answer a b c d t0 t1 t2 t3) in
        let fits : Fits r = (omega arith, omega arith, omega arith) in
        let pre = upto h ls mid in
        let total = length-whole h ls eh short mid more r fits in
        let room : leb (length (whole h ls eh short mid more r fits)) (length pre + 2 + 9) ≡ false =
          ground (arith, total) in
        let room' : leb (length (whole h ls eh short mid more r fits)) (length pre + 2 + 13)
            ≡ false =
          ground (arith, total) in
        rw
          (
            answer_loop,
            pointer_lem h ls mid _ eh short,
            type_at h ls eh short mid more r fits,
            class_at h ls eh short mid more r fits,
            length_at h ls eh short mid more r fits,
            turned_lem h ls eh short mid more r fits,
            room,
            room',
            get_or_at pre (turned r ++ more) (length pre + 2 + 10) 12 (omega arith),
            get_or_at pre (turned r ++ more) (length pre + 2 + 10 + 1) 13 (omega arith),
            get_or_at pre (turned r ++ more) (length pre + 2 + 10 + 2) 14 (omega arith),
            get_or_at pre (turned r ++ more) (length pre + 2 + 10 + 3) 15 (omega arith),
          )
          refl

abbrev pub encode_all : List Answer → List ℕ
encode_all [] = []
encode_all (r ∷ rs) = encoded r ++ encode_all rs

-- answers that are no IPv4 addresses, such as aliases
abbrev pub AreOthers : List Answer → Type 0
AreOthers [] = Unit {0}
AreOthers (r ∷ rs) = Fits r × (is_address r ≡ false) × AreOthers rs

answers_lem :
    (h : List ℕ) (ls : List (List ℕ)) (mid : List ℕ) (rs : List Answer) (more : List ℕ)
    (n i a b c d t0 t1 t2 t3 : ℕ)
    → length h ≡ 12
    → AreShort ls
    → AreOthers rs
    → answer_loop
        (length rs + suc n)
        i
        (length (upto h ls mid))
        (upto h ls mid ++ (encode_all rs ++ (encoded (address_answer a b c d t0 t1 t2 t3) ++ more)))
      ≡ scanned (i + length rs) (a + b * 2 ^ 8 + c * 2 ^ 16 + d * 2 ^ 24)
answers_lem h ls mid [] more n i a b c d t0 t1 t2 t3 eh short oks =
    let r = address_answer a b c d t0 t1 t2 t3 in
    let addr = a + b * 2 ^ 8 + c * 2 ^ 16 + d * 2 ^ 24 in
    ap (λ k. answer_loop k i (length (upto h ls mid)) (upto h ls mid ++ (encoded r ++ more)))
      {y = suc n} (omega arith)
    ∙ found_lem h ls eh short mid more n i a b c d t0 t1 t2 t3
    ∙ ap (λ k. scanned k addr) {y = i + 0} (omega arith)
answers_lem h ls mid (r ∷ rs) more n i a b c d t0 t1 t2 t3 eh short (fits, other, oks) =
    let x = encoded (address_answer a b c d t0 t1 t2 t3) ++ more in
    let addr = a + b * 2 ^ 8 + c * 2 ^ 16 + d * 2 ^ 24 in
    let pre = upto h ls mid in
    ap (λ k. answer_loop k i (length pre) (pre ++ (encode_all (r ∷ rs) ++ x)))
      {y = suc (length rs + suc n)} (omega arith)
    ∙ ap (λ l. answer_loop (suc (length rs + suc n)) i (length pre) (pre ++ l))
        (append_assoc (encoded r) (encode_all rs) x)
    ∙ skip_lem h ls eh short mid (encode_all rs ++ x) r fits (length rs + suc n) i other
    ∙ answers_lem h ls (mid ++ turned r) rs more n (i + 1) a b c d t0 t1 t2 t3 eh short oks
    ∙ ap (λ k. scanned k addr) {y = i + suc (length rs)} (omega arith)

-- the header of a reply with one question
abbrev pub reply_header : ℕ → ℕ → ℕ → ℕ → ℕ → List ℕ
reply_header id flags answers ns ar =
    be16 id ++ be16 flags ++ be16 1 ++ be16 answers ++ be16 ns ++ be16 ar

-- A reply without error to a question for a name of labels of 1 to 63 bytes, whose answers name it by
-- a pointer to the question: any that are no IPv4 addresses, then one that is, then anything. Its
-- reading ends with that address, and with the index at the number of answers before it.
pub read_reply-address :
    (id flags ns ar : ℕ) (ls : List (List ℕ)) (rs : List Answer) (more : List ℕ)
    (n a b c d t0 t1 t2 t3 : ℕ)
    → flags < 2 ^ 16
    → flags_ok flags ≡ true
    → AreShort ls
    → AreOthers rs
    → length rs + suc n < 2 ^ 16
    → read_reply (
        reply_header id flags (length rs + suc n) ns ar
        ++ (wire ls
            ++ (question
                ++ (encode_all rs ++ (encoded (address_answer a b c d t0 t1 t2 t3) ++ more)))))
      ≡ scanned (length rs) (a + b * 2 ^ 8 + c * 2 ^ 16 + d * 2 ^ 24)
unfolding read_reply question_loop
read_reply-address id flags ns ar ls rs more n a b c d t0 t1 t2 t3 small ok short oks few =
    let count = length rs + suc n in
    let header = reply_header id flags count ns ar in
    let x = encode_all rs ++ (encoded (address_answer a b c d t0 t1 t2 t3) ++ more) in
    let buf = header ++ (wire ls ++ (question ++ x)) in
    let e_flags : field16 buf 2 ≡ flags = omega arith in
    let e_count : field16 buf 6 ≡ count = omega arith in
    let room : leb 12 (length buf) ≡ true =
      ground (arith, length-append header (wire ls ++ (question ++ x))) in
    let pre = upto header ls question in
    let whole_lem : buf ≡ pre ++ x = sym (
      append_assoc header (wire ls ++ question) x
      ∙ ap (λ l. header ++ l) (append_assoc (wire ls) question x)) in
    rw
      (
        read_reply,
        room,
        e_flags,
        ok,
        question_loop,
        parse_name-wire header ls (question ++ x) short,
        e_count,
      )
      (ap (λ o. answer_loop count 0 o buf) {y = length pre}
          (omega
            (arith, length-append header (wire ls ++ question), length-append (wire ls) question))
        ∙ ap (answer_loop count 0 (length pre)) whole_lem
        ∙ answers_lem header ls question rs more n 0 a b c d t0 t1 t2 t3 refl short oks
        ∙ ap (λ k. scanned k (a + b * 2 ^ 8 + c * 2 ^ 16 + d * 2 ^ 24)) {y = length rs}
            (omega arith))
