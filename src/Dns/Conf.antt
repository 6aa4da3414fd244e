-- ===== src/Dns/Conf.antt =====
-- Reading resolv.conf: `dns_resolv_parse`, `resolv_conf_parse_line` and `add_resolver` of
-- src/dns/cdns.c. `inet_pton` is a parameter: the address of a text, none if it is no address.
pub mod Laws
use lthread.Base.{
  ℕ, zero, suc, ◌+◌, ◌-◌, Bool, true, false, Option, none, some, List, [], ◌∷◌, ◌++◌, ◌==◌, ◌||◌,
  ◌&&◌, ltb, if◌then◌else◌, length, push_back, not,
}

-- strtok_r over blanks and tabs: the tokens of a line. `seen` is the token that has been begun.
abbrev pub is_blank : ℕ → Bool
is_blank c = c == 32 || c == 9

abbrev pub token_end : List ℕ → List (List ℕ) → List (List ℕ)
token_end [] ts = ts
token_end (c ∷ cs) ts = (c ∷ cs) ∷ ts

unfoldable pub tokens : List ℕ → List ℕ → List (List ℕ)
tokens seen [] = token_end seen []
tokens seen (c ∷ cs) =
    let split = token_end seen (tokens [] cs) in
    let on = tokens (push_back seen c) cs in if is_blank c then split else on

abbrev pub same_text : List ℕ → List ℕ → Bool
same_text [] [] = true
same_text (x ∷ xs) (y ∷ ys) = x == y && same_text xs ys
same_text _ _ = false

-- "nameserver"
abbrev pub nameserver : List ℕ
nameserver = 110 ∷ 97 ∷ 109 ∷ 101 ∷ 115 ∷ 101 ∷ 114 ∷ 118 ∷ 101 ∷ 114 ∷ []

-- what the calls on the file answer
pub record ConfFile : Type 0 where
  pub opens : Bool
  pub stats : Bool
  pub st_size : ℕ
  pub memory : Bool
  -- each read: none for -1, otherwise the bytes
  pub reads : List (Option (List ℕ))

-- The loop of reads: none for an error, otherwise the bytes read.
unfoldable pub read_loop : ℕ → List (Option (List ℕ)) → List ℕ → Option (List ℕ)
read_loop size [] text = some text
read_loop size (none ∷ rs) text = none
read_loop size (some [] ∷ rs) text = some text
read_loop size (some (b ∷ bs) ∷ rs) text =
    let text' = text ++ b ∷ bs in
    let more = read_loop size rs text' in if length text' == size then some text' else more

abbrev pub then_lines : (List ℕ → Option (List ℕ)) → Option (List ℕ) → Option (List ℕ)
then_lines rest none = none
then_lines rest (some resolvers) = rest resolvers

module _ (inet_pton : List ℕ → Option ℕ) where
  -- `add_resolver`; a text that is no address is pushed as 0.
  unfoldable pub add_resolver : List ℕ → List ℕ → List ℕ
  add_resolver text resolvers = elim (inet_pton text) [
    | none ↦ push_back resolvers 0
    | some ip ↦ push_back resolvers ip
  ]

  -- The line's tokens; none where `add_resolver` is handed NULL. The lines `domain`, `search` and
  -- `options` are read and dropped, as is any other.
  abbrev pub parse_tokens : List (List ℕ) → List ℕ → Option (List ℕ)
  parse_tokens [] resolvers = some resolvers
  parse_tokens (t ∷ []) resolvers = if same_text t nameserver then none else some resolvers
  parse_tokens (t ∷ a ∷ ts) resolvers =
      if same_text t nameserver then some (add_resolver a resolvers) else some resolvers

  -- `resolv_conf_parse_line`
  unfoldable pub parse_line : List ℕ → List ℕ → Option (List ℕ)
  unfolding tokens add_resolver
  parse_line line resolvers = parse_tokens (tokens [] line) resolvers

  -- The loop over the lines; `seen` is the line that has been begun. A NUL ends the text.
  unfoldable pub parse_text : List ℕ → List ℕ → List ℕ → Option (List ℕ)
  unfolding parse_line
  parse_text seen [] resolvers = parse_line seen resolvers
  parse_text seen (c ∷ cs) resolvers =
      let next = then_lines (λ rs. parse_text [] cs rs) (parse_line seen resolvers) in
      let on = parse_text (push_back seen c) cs resolvers in
      let last = parse_line seen resolvers in if c == 0 then last else if c == 10 then next else on

  -- What `dns_resolv_parse` returns, with the resolvers; none where NULL is read.
  abbrev pub conf_text : List ℕ → Option (List ℕ) → Option (ℕ × List ℕ)
  conf_text resolvers none = some (6, resolvers)
  conf_text resolvers (some text) = elim (parse_text [] text resolvers) [
    | none ↦ none
    | some rs ↦ some (0, rs)
  ]

  unfoldable pub resolv_parse : ConfFile → List ℕ → Option (ℕ × List ℕ)
  unfolding read_loop parse_text
  resolv_parse file resolvers =
      if not file.opens
      then some (1, resolvers)
      else if not file.stats
      then some (2, resolvers)
      else if file.st_size == 0
      then some (3, resolvers)
      else if ltb 65535 file.st_size
      then some (4, resolvers)
      else if not file.memory
      then some (5, resolvers)
      else conf_text resolvers (read_loop file.st_size file.reads [])

-- `cdns_init`, on resolv.conf
unfoldable pub cdns_init : (List ℕ → Option ℕ) → ConfFile → Option (ℕ × List ℕ)
unfolding resolv_parse
cdns_init inet_pton file = resolv_parse inet_pton file []
