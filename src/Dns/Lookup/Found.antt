-- ===== src/Dns/Lookup/Found.antt =====
-- A lookup by `dns_lookup` of src/dns/cdns.c that finds the address.
use lthread.Base.{
  ℕ, suc, ◌+◌, ◌*◌, ◌^◌, ◌<◌, ◌≡◌, ◌≢◌, true, List, ◌∷◌, ◌++◌, length, get_or, arith,
}
use lthread.Dns.Query.{query_header, question}
use lthread.Dns.Query.Laws.{IsLabel, AreLabels, join, wire, build_query-wire}
use lthread.Dns.Name.Laws.{AreShort}
use lthread.Dns.Reply.{flags_ok, scanned, read_reply}
use lthread.Dns.Answer.{Answer, encoded}
use lthread.Dns.Answer.Laws.{
  encode_all, AreOthers, address_answer, reply_header, read_reply-address,
}
use lthread.Dns.Lookup.{Calls, address, replied, opened, ask_loop, dns_lookup}

-- What a reply says of itself: its id, its flags, the four bytes of the time to live of the address,
-- the numbers of records in the authority and the additional section, and all that follows the
-- address.
pub record Rest : Type 0 where
  pub id : ℕ
  pub flags : ℕ
  pub t0 : ℕ
  pub t1 : ℕ
  pub t2 : ℕ
  pub t3 : ℕ
  pub nscount : ℕ
  pub arcount : ℕ
  pub more : List ℕ

-- a reply whose first IPv4 address is a.b.c.d, behind the answers `rs` and before `n` others
abbrev pub reply_of : Rest → List (List ℕ) → List Answer → ℕ → (ℕ × ℕ × ℕ × ℕ) → List ℕ
reply_of r ls rs n (a, b, c, d) =
    reply_header r.id r.flags (length rs + suc n) r.nscount r.arcount
    ++ (wire ls
        ++ (question
            ++ (encode_all rs ++ (encoded (address_answer a b c d r.t0 r.t1 r.t2 r.t3) ++ r.more))))

module _ {W : Type 0} (calls : Calls W) where
  open calls use {socket, close}

  found_round :
      (query resolvers buf : List ℕ) (f j ip fd : ℕ) (w v : W)
      → 0 < length resolvers
      → opened calls query (get_or resolvers 0 0) (socket w) ≡ ((replied buf, v), fd)
      → read_reply buf ≡ scanned j ip
      → ip ≢ 0
      → ask_loop calls (suc f) query resolvers 0 w ≡ (address ip, close fd v)
  unfolding ask_loop
  found_round query resolvers buf f j ip fd w v some_ got read ne = ground (arith, got, read)

  -- Let a host name be labels of 1 to 63 bytes joined by dots, none of them a zero byte or a dot.
  -- Let the first resolver answer the query that dns_lookup builds for it with a reply without
  -- error that repeats the question and then has answers whose names point to it: any that are no
  -- IPv4 addresses, such as aliases, then one that is, and not 0.0.0.0, with any time to live, and
  -- then anything; its counts of authority and additional records may be anything too. With memory
  -- and a round of fuel or more, dns_lookup closes the socket and returns that address.
  pub dns_lookup-address :
      (f id n a b c d fd : ℕ) (r : Rest) (l : List ℕ) (ls : List (List ℕ)) (rs : List Answer)
      (resolvers : List ℕ) (w v : W)
      → IsLabel l
      → AreLabels ls
      → AreShort (l ∷ ls)
      → AreOthers rs
      → r.flags < 2 ^ 16
      → flags_ok r.flags ≡ true
      → length rs + suc n < 2 ^ 16
      → a + b * 2 ^ 8 + c * 2 ^ 16 + d * 2 ^ 24 ≢ 0
      → 0 < length resolvers
      → opened calls
          (query_header id ++ (wire (l ∷ ls) ++ question))
          (get_or resolvers 0 0)
          (socket w)
        ≡ ((replied (reply_of r (l ∷ ls) rs n (a, b, c, d)), v), fd)
      → dns_lookup calls (suc f) true id (join l ls) resolvers w
        ≡ (address (a + b * 2 ^ 8 + c * 2 ^ 16 + d * 2 ^ 24), close fd v)
  unfolding dns_lookup
  dns_lookup-address f id n a b c d fd r l ls rs resolvers w v ok oks short others small fl few ne
        some_ got =
      let buf = reply_of r (l ∷ ls) rs n (a, b, c, d) in
      rw (dns_lookup, build_query-wire id l ls ok oks)
        (found_round (query_header id ++ (wire (l ∷ ls) ++ question)) resolvers buf f (length rs)
          (a + b * 2 ^ 8 + c * 2 ^ 16 + d * 2 ^ 24) fd w v some_ got
          (read_reply-address r.id r.flags r.nscount r.arcount (l ∷ ls) rs r.more n a b c d r.t0
            r.t1 r.t2 r.t3 small fl short others few)
          ne)
