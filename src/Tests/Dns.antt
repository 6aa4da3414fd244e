-- ===== src/Tests/Dns.antt =====
-- Queries, names, replies and resolv.conf of src/dns/cdns.c on small inputs.
use lthread.Base.{
  ℕ, ◌≡◌, refl, true, Option, none, some, List, [], ◌∷◌, ◌++◌, length, if◌then◌else◌, arith,
}
use lthread.Socket.Wait.{count}
use lthread.Dns.Query.{query_header, question, build_query, label_loop}
use lthread.Dns.Query.Laws.{IsLabel, AreLabels, build_query-wire}
use lthread.Dns.Name.{taken, parse_name}
use lthread.Dns.Name.Laws.{parse_name-build_query}
use lthread.Dns.Reply.{read_reply, question_loop, answer_loop}
use lthread.Dns.Lookup.{Calls, out_of_fuel, dns_lookup}
use lthread.Dns.Lookup.Laws.{dns_lookup_forever}
use lthread.Dns.Conf.{same_text, parse_text}
use lthread.Dns.Conf.Laws.{Entry, server, remark, print_all, AreEntries, parse_text-print_all}

-- "ab.c"
abbrev ab : List ℕ
ab = 97 ∷ 98 ∷ []

abbrev c_ : List ℕ
c_ = 99 ∷ []

ab-IsLabel : IsLabel ab
ab-IsLabel =
    (((omega arith, omega arith), ((omega arith, omega arith), tt)), omega arith, omega arith)

c-AreLabels : AreLabels (c_ ∷ [])
c-AreLabels = ((((omega arith, omega arith), tt), omega arith, omega arith), tt)

build_query-wire_example :
    build_query 513 (97 ∷ 98 ∷ 46 ∷ 99 ∷ [])
    ≡ some (query_header 513 ++ ((2 ∷ 97 ∷ 98 ∷ 1 ∷ 99 ∷ 0 ∷ []) ++ question))
build_query-wire_example = build_query-wire 513 ab (c_ ∷ []) ab-IsLabel c-AreLabels

parse_name-build_query_example :
    (buf : List ℕ) × (build_query 513 (97 ∷ 98 ∷ 46 ∷ 99 ∷ []) ≡ some buf)
    × (parse_name buf 12 ≡ taken 6)
parse_name-build_query_example =
    parse_name-build_query 513 ab (c_ ∷ []) ab-IsLabel c-AreLabels
      ((omega arith, omega arith, (omega arith, omega arith, tt)))

-- a reply with neither questions nor answers
abbrev no_answer : List ℕ
no_answer = 0 ∷ 0 ∷ 128 ∷ 0 ∷ 0 ∷ 0 ∷ 0 ∷ 0 ∷ 0 ∷ 0 ∷ 0 ∷ 0 ∷ []

-- Every resolver sends it.
abbrev empty_replies : Calls Unit
empty_replies = record {
  socket = λ w. (count 3, w);
  connect = λ fd dns w. (count 0, w);
  send = λ fd buf w. (count (length buf), w);
  recv = λ fd w. (count 12, no_answer, w);
  close = λ fd w. w;
  sleep = λ ms w. w;
}

abbrev query_ab : List ℕ
query_ab = query_header 1 ++ ((2 ∷ 97 ∷ 98 ∷ 0 ∷ []) ++ question)

dns_lookup_forever_example : (dns_lookup empty_replies 9 true 1 ab (7 ∷ 8 ∷ []) tt).0 ≡ out_of_fuel
unfolding build_query label_loop read_reply question_loop answer_loop
dns_lookup_forever_example =
    dns_lookup_forever empty_replies 9 1 ab query_ab (7 ∷ 8 ∷ []) tt refl (omega arith)
      (λ k v. (no_answer, tt, 3, refl, refl))

-- "1.1" is the address 257, and nothing else is one.
abbrev pton : List ℕ → Option ℕ
pton t = if same_text t (49 ∷ 46 ∷ 49 ∷ []) then some 257 else none

-- a comment, and a name server
abbrev conf : List Entry
conf = remark (32 ∷ 120 ∷ []) ∷ server (49 ∷ 46 ∷ 49 ∷ []) ∷ []

conf-AreEntries : AreEntries conf
conf-AreEntries = (
  (omega arith, omega arith, (omega arith, omega arith, tt)),
  (
    (
      (
        omega arith,
        omega arith,
        omega arith,
        omega arith,
        (
          omega arith,
          omega arith,
          omega arith,
          omega arith,
          (omega arith, omega arith, omega arith, omega arith, tt),
        ),
      ),
      λ e. ground arith,
    ),
    tt,
  ),
)

parse_text-print_all_example : parse_text pton [] (print_all conf) [] ≡ some (257 ∷ [])
parse_text-print_all_example = parse_text-print_all pton conf [] conf-AreEntries
