-- ===== src/Tests/Answer.antt =====
-- A reply with an alias and an address.
use lthread.Base.{ℕ, ◌≡◌, refl, arith, true, [], ◌∷◌, List, length}
use lthread.Socket.Wait.{count}
use lthread.Dns.Query.Laws.{IsLabel}
use lthread.Dns.Answer.{Answer}
use lthread.Dns.Answer.Laws.{AreOthers}
use lthread.Dns.Lookup.{Calls, address, dns_lookup}
use lthread.Dns.Lookup.Found.{Rest, reply_of, dns_lookup-address}

-- ab.c
abbrev name_labels : List (List ℕ)
name_labels = (97 ∷ 98 ∷ []) ∷ (99 ∷ []) ∷ []

-- CNAME
abbrev alias : Answer
alias = record { type_ = 5; class_ = 1; t0 = 0; t1 = 0; t2 = 1; t3 = 44; data_ = 1 ∷ 100 ∷ 0 ∷ [] }

ab-IsLabel : IsLabel (97 ∷ 98 ∷ [])
ab-IsLabel =
    (((omega arith, omega arith), ((omega arith, omega arith), tt)), omega arith, omega arith)

c-IsLabel : IsLabel (99 ∷ [])
c-IsLabel = (((omega arith, omega arith), tt), omega arith, omega arith)

alias-AreOthers : AreOthers (alias ∷ [])
alias-AreOthers = ((omega arith, omega arith, omega arith), refl, tt)

-- 10.0.0.7, to live for 600 seconds, with the start of a record of the authority section
abbrev rest : Rest
rest = record {
  id = 4660;
  flags = 33152;
  t0 = 0;
  t1 = 0;
  t2 = 2;
  t3 = 88;
  nscount = 1;
  arcount = 0;
  more = 192 ∷ 12 ∷ 0 ∷ 2 ∷ [];
}

abbrev answered : List ℕ
answered = reply_of rest name_labels (alias ∷ []) 0 (10, 0, 0, 7)

abbrev resolver : Calls Unit
resolver = record {
  socket = λ w. (count 3, w);
  connect = λ fd dns w. (count 0, w);
  send = λ fd buf w. (count (length buf), w);
  recv = λ fd w. (count (length answered), answered, w);
  close = λ fd w. w;
  sleep = λ ms w. w;
}

dns_lookup-address_example :
    dns_lookup resolver 1 true 4660 (97 ∷ 98 ∷ 46 ∷ 99 ∷ []) (8 ∷ []) tt ≡ (address 117440522, tt)
dns_lookup-address_example =
    dns_lookup-address resolver 0 4660 0 10 0 0 7 3 rest (97 ∷ 98 ∷ []) ((99 ∷ []) ∷ [])
      (alias ∷ []) (8 ∷ []) tt tt ab-IsLabel (c-IsLabel, tt)
      (omega arith, omega arith, (omega arith, omega arith, tt)) alias-AreOthers (omega arith) refl
      (omega arith) (λ e. omega arith) (omega arith) refl
