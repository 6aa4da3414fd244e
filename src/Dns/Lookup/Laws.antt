-- ===== src/Dns/Lookup/Laws.antt =====
-- When the loop of `dns_lookup` in src/dns/cdns.c ends.
use lthread.Base.{
  ℕ, zero, suc, ◌≤◌, ◌<◌, ◌≡◌, refl, ap, ◌∙◌, true, some, List, length, get_or, arith,
}
use lthread.Dns.Reply.{scanned, read_reply}
use lthread.Dns.Lookup.{Calls, Lookup, out_of_fuel, replied, opened, ask_loop, dns_lookup}
use lthread.Dns.Query.{build_query}

module _ {W : Type 0} (calls : Calls W) where
  open calls use {socket, sleep, close}

  -- a round whose resolver replies with no answer
  ask_round :
      (query resolvers : List ℕ) (f i : ℕ) (w : W) {buf : List ℕ} {v : W} {fd : ℕ}
      → i < length resolvers
      → opened calls query (get_or resolvers i 0) (socket w) ≡ ((replied buf, v), fd)
      → read_reply buf ≡ scanned 0 0
      → ask_loop calls (suc f) query resolvers i w
        ≡ ask_loop calls f query resolvers 1 (sleep 500 (close fd v))
  unfolding ask_loop
  ask_round query resolvers f i w lt got empty = ground (arith, got, empty)

  ask_loop_forever :
      (query resolvers : List ℕ) (f i : ℕ) (w : W)
      → 2 ≤ length resolvers
      → ((k : ℕ) (v : W)
          → (buf : List ℕ) × (v' : W) × (fd : ℕ) × (opened calls query
                (get_or resolvers k 0)
                (socket v)
              ≡ ((replied buf, v'), fd))
            × (read_reply buf ≡ scanned 0 0))
      → i < 2
      → (ask_loop calls f query resolvers i w).0 ≡ out_of_fuel
  unfolding ask_loop
  ask_loop_forever query resolvers zero i w two empty lt = refl
  ask_loop_forever query resolvers (suc f) i w two empty lt =
      let (buf, v, fd, got, none_in) = empty i w in
      ap (λ (r : Lookup × W). r.0) (ask_round query resolvers f i w (omega arith) got none_in)
      ∙ ask_loop_forever query resolvers f 1 (sleep 500 (close fd v)) two empty (omega arith)

  lookup_asks :
      (f id : ℕ) (host query resolvers : List ℕ) (w : W)
      → build_query id host ≡ some query
      → dns_lookup calls f true id host resolvers w ≡ ask_loop calls f query resolvers 0 w
  unfolding dns_lookup
  lookup_asks f id host query resolvers w q = rw (q, dns_lookup)

  -- Let there be two resolvers or more, let the query for the host name be built, and let each
  -- resolver answer it with a reply without error that leaves the index at 0 and has no address.
  -- Then dns_lookup does not return, whatever its fuel.
  pub dns_lookup_forever :
      (f id : ℕ) (host query resolvers : List ℕ) (w : W)
      → build_query id host ≡ some query
      → 2 ≤ length resolvers
      → ((k : ℕ) (v : W)
          → (buf : List ℕ) × (v' : W) × (fd : ℕ) × (opened calls query
                (get_or resolvers k 0)
                (socket v)
              ≡ ((replied buf, v'), fd))
            × (read_reply buf ≡ scanned 0 0))
      → (dns_lookup calls f true id host resolvers w).0 ≡ out_of_fuel
  dns_lookup_forever f id host query resolvers w q two empty =
      ap (λ (r : Lookup × W). r.0) (lookup_asks f id host query resolvers w q)
      ∙ ask_loop_forever query resolvers f 0 w two empty (omega arith)
