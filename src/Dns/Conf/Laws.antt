-- ===== src/Dns/Conf/Laws.antt =====
-- What `dns_resolv_parse` of src/dns/cdns.c makes of a file of nameserver lines and comments.
use mathlib.Core.Option
use lthread.Base.{
  ℕ, ◌≡◌, ◌≢◌, refl, ap, sym, ◌∙◌, Bool-cases, Option-cases, inl, inr, Option, some, List, [], ◌∷◌,
  ◌++◌, append_assoc, append-nil, push_back, arith,
}
use lthread.Dns.Conf.{
  tokens, token_end, is_blank, nameserver, add_resolver, parse_tokens, parse_line, then_lines,
  parse_text,
}

pub data Entry : Type 0 where
  server : List ℕ → Entry
  remark : List ℕ → Entry

-- the line of an entry, with its line feed: "nameserver ADDRESS", or "#TEXT"
abbrev pub print_entry : Entry → List ℕ
print_entry (server a) = nameserver ++ 32 ∷ (a ++ 10 ∷ [])
print_entry (remark t) = 35 ∷ (t ++ 10 ∷ [])

abbrev pub print_all : List Entry → List ℕ
print_all [] = []
print_all (e ∷ es) = print_entry e ++ print_all es

abbrev pub InLine : List ℕ → Type 0
InLine [] = Unit {0}
InLine (c ∷ cs) = (c ≢ 0) × (c ≢ 10) × InLine cs

abbrev pub InToken : List ℕ → Type 0
InToken [] = Unit {0}
InToken (c ∷ cs) = (c ≢ 0) × (c ≢ 10) × (c ≢ 32) × (c ≢ 9) × InToken cs

abbrev pub IsEntry : Entry → Type 0
IsEntry (server a) = InToken a × (a ≢ [])
IsEntry (remark t) = InLine t

abbrev pub AreEntries : List Entry → Type 0
AreEntries [] = Unit {0}
AreEntries (e ∷ es) = IsEntry e × AreEntries es

InToken-InLine : (cs : List ℕ) → InToken cs → InLine cs
InToken-InLine [] t = tt
InToken-InLine (c ∷ cs) t = (t.0, t.1, InToken-InLine cs t.4)

tokens_solid : (seen cs : List ℕ) → InToken cs → tokens seen cs ≡ token_end (seen ++ cs) []
unfolding tokens
tokens_solid seen [] t = ap (λ l. token_end l []) (sym (append-nil seen))
tokens_solid seen (c ∷ cs) t =
    ground (arith, tokens_solid (push_back seen c) cs t.4, append_assoc seen (c ∷ []) cs)

-- A token that has been begun is never dropped.
tokens_begun :
    (x : ℕ) (seen cs : List ℕ)
    → (ys : List ℕ) × (ts : List (List ℕ)) × (tokens (x ∷ seen) cs ≡ (x ∷ ys) ∷ ts)
unfolding tokens
tokens_begun x seen [] = (seen, [], refl)
tokens_begun x seen (c ∷ cs) = elim (Bool-cases (is_blank c)) [
  | inl split ↦ (seen, tokens [] cs, rw split refl)
  | inr on ↦ let (ys, ts, e) = tokens_begun x (push_back seen c) cs in (ys, ts, rw on e)
]

InLine-append : (xs ys : List ℕ) → InLine xs → InLine ys → InLine (xs ++ ys)
InLine-append [] ys hx hy = hy
InLine-append (x ∷ xs) ys hx hy = (hx.0, hx.1, InLine-append xs ys hx.2 hy)

server_line-InLine : (a : List ℕ) → InToken a → InLine (nameserver ++ 32 ∷ a)
server_line-InLine a ok =
    InLine-append nameserver (32 ∷ a) (omega arith) (omega arith, omega arith, InToken-InLine a ok)

module _ (inet_pton : List ℕ → Option ℕ) where
  -- the addresses of the servers, 0 for a text that is no address
  abbrev pub addresses : List Entry → List ℕ
  addresses [] = []
  addresses (server a ∷ es) = Option.get_or (inet_pton a) 0 ∷ addresses es
  addresses (remark t ∷ es) = addresses es

  text_line :
      (seen l rest resolvers : List ℕ)
      → InLine l
      → parse_text inet_pton seen (l ++ 10 ∷ rest) resolvers
        ≡ then_lines
            (λ rs. parse_text inet_pton [] rest rs)
            (parse_line inet_pton (seen ++ l) resolvers)
  unfolding parse_text
  text_line seen [] rest resolvers ok =
      ap
        (λ s. then_lines (λ rs. parse_text inet_pton [] rest rs) (parse_line inet_pton s resolvers))
        (sym (append-nil seen))
  text_line seen (c ∷ cs) rest resolvers ok =
      ground
        (arith, text_line (push_back seen c) cs rest resolvers ok.2, append_assoc seen (c ∷ []) cs)

  add_resolver-get_or :
      (a rs : List ℕ) → add_resolver inet_pton a rs ≡ rs ++ Option.get_or (inet_pton a) 0 ∷ []
  unfolding add_resolver
  add_resolver-get_or a rs = elim (Option-cases (inet_pton a)) [
    | inl e ↦ rw (e, add_resolver)
    | inr (ip, e) ↦ rw (e, add_resolver)
  ]

  server_line :
      (a rs : List ℕ)
      → InToken a
      → a ≢ []
      → parse_line inet_pton (nameserver ++ 32 ∷ a) rs
        ≡ some (rs ++ Option.get_or (inet_pton a) 0 ∷ [])
  unfolding parse_line
  server_line [] rs ok ne = absurd (ne refl)
  server_line (c ∷ cs) rs ok ne =
      rw (tokens_solid [] (c ∷ cs) ok) (ap some (add_resolver-get_or (c ∷ cs) rs))

  comment_tokens :
      (ys : List ℕ) (ts : List (List ℕ)) (rs : List ℕ)
      → parse_tokens inet_pton ((35 ∷ ys) ∷ ts) rs ≡ some rs
  comment_tokens ys [] rs = refl
  comment_tokens ys (a ∷ ts) rs = refl

  remark_line : (t rs : List ℕ) → parse_line inet_pton (35 ∷ t) rs ≡ some rs
  unfolding parse_line
  remark_line t rs =
      let (ys, ts, e) = tokens_begun 35 [] t in
      ap (λ l. parse_tokens inet_pton l rs) e ∙ comment_tokens ys ts rs

  parse_entry :
      (e : Entry) (rest rs : List ℕ)
      → IsEntry e
      → parse_text inet_pton [] (print_entry e ++ rest) rs
        ≡ parse_text inet_pton [] rest (rs ++ addresses (e ∷ []))
  parse_entry (server a) rest rs (ok, ne) =
      let l = nameserver ++ 32 ∷ a in
      ap (λ b. parse_text inet_pton [] b rs)
        (ap (λ b. nameserver ++ 32 ∷ b) (append_assoc a (10 ∷ []) rest))
      ∙ text_line [] l rest rs (server_line-InLine a ok)
      ∙ ap (then_lines (λ rs'. parse_text inet_pton [] rest rs')) (server_line a rs ok ne)
  parse_entry (remark t) rest rs ok =
      ap (λ b. parse_text inet_pton [] (35 ∷ b) rs) (append_assoc t (10 ∷ []) rest)
      ∙ text_line [] (35 ∷ t) rest rs (omega arith, omega arith, ok)
      ∙ ap (then_lines (λ rs'. parse_text inet_pton [] rest rs')) (remark_line t rs)
      ∙ ap (parse_text inet_pton [] rest) (sym (append-nil rs))

  addresses-cons :
      (e : Entry) (es : List Entry) → addresses (e ∷ es) ≡ addresses (e ∷ []) ++ addresses es
  addresses-cons (server a) es = refl
  addresses-cons (remark t) es = refl

  parse_nothing : (rs : List ℕ) → parse_text inet_pton [] [] rs ≡ some rs
  unfolding parse_text
  parse_nothing rs = refl

  -- Reading the text of comment lines and lines with nameserver, a space and an address, each ended
  -- by a line feed, appends the addresses of the name servers to the resolvers in the order of the
  -- lines, 0 for one that inet_pton refuses. No text has a zero byte or a line feed, and no address
  -- is empty or has a blank.
  pub parse_text-print_all :
      (es : List Entry) (rs : List ℕ)
      → AreEntries es
      → parse_text inet_pton [] (print_all es) rs ≡ some (rs ++ addresses es)
  parse_text-print_all [] rs ok = parse_nothing rs ∙ ap some (sym (append-nil rs))
  parse_text-print_all (e ∷ es) rs (ok, oks) =
      parse_entry e (print_all es) rs ok
      ∙ parse_text-print_all es (rs ++ addresses (e ∷ [])) oks
      ∙ ap some (
          append_assoc rs (addresses (e ∷ [])) (addresses es)
          ∙ ap (λ l. rs ++ l) (sym (addresses-cons e es)))
