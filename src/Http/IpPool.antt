-- ===== src/Http/IpPool.antt =====
-- util/http.go: `ParseIPPool`, and what an empty pool does to `GetRequester`. Reading the file into lines and
-- `netaddr.ParseIP` are outside.
use ytarchive_raw_go.Prelude.{
  ℕ, ◌≡◌, refl, ◌≢◌, ◌↔◌, inl, inr, true, List, [], ◌∷◌, Option, some, none, ◌>>=◌, arith, ◌==◌,
  length, if◌then◌else◌, Bool-cases, get_elem?_of_lt,
}
use ytarchive_raw_go.Prelude.Text.{Bytes}
use ytarchive_raw_go.Prelude.Trim.{trim_space, Blank, trim_space-Blank}
use ytarchive_raw_go.Http.Requester.{
  Network, new_http_client, Environment, random, bind_address, get_requester,
}

-- The loop of `ParseIPPool` over the lines; `parse` is `netaddr.ParseIP`.
unfoldable pub parse_lines : (Bytes → Option ℕ) → List Bytes → Option (List ℕ)
unfolding trim_space
parse_lines parse [] = some []
parse_lines parse (l ∷ ls) =
    let line = trim_space l in
    let rest = parse_lines parse ls in
    if length line == 0 then rest else (do ip ← parse line; ips ← rest; some (ip ∷ ips))

-- `ParseIPPool`; the file is given by its lines, if it can be opened and read to its end.
unfoldable pub parse_ip_pool : (Bytes → Option ℕ) → Option (List Bytes) → Option (List ℕ)
unfolding parse_lines
parse_ip_pool parse file = file >>= parse_lines parse

abbrev pub AllBlank : List Bytes → Type 0
AllBlank [] = Unit {0}
AllBlank (l ∷ ls) = Blank l × AllBlank ls

empty_line : (l : Bytes) → (length l == 0) ≡ true → l ≡ []
empty_line [] e = refl
empty_line (c ∷ l) e = absurd (ground (arith, e))

one_address :
    (a : Option ℕ) (b : Option (List ℕ)) (pool : List ℕ)
    → (do ip ← a; ips ← b; some (ip ∷ ips)) ≡ some pool
    → pool ≢ []
one_address none b pool e = cc
one_address (some ip) none pool e = cc
one_address (some ip) (some ips) pool e = λ h. cc

-- The pool is empty exactly if there was nothing in the lines.
empty_pool :
    (parse : Bytes → Option ℕ) (ls : List Bytes) (pool : List ℕ)
    → parse_lines parse ls ≡ some pool
    → pool ≡ [] ↔ AllBlank ls
unfolding parse_lines
empty_pool parse [] pool e = (λ h. tt, λ h. cc)
empty_pool parse (l ∷ ls) pool e = elim (Bool-cases (length (trim_space l) == 0)) [
  | inl nothing ↦
      let (to, from) = empty_pool parse ls pool (rw (nothing, parse_lines) at e) in
      let (blank, back) = trim_space-Blank l in
      (λ h. (blank (empty_line (trim_space l) nothing), to h), λ h. from h.1)
  | inr there ↦ (
    λ h. absurd (
        one_address (parse (trim_space l)) (parse_lines parse ls) pool
          (rw (there, parse_lines) at e) h),
    λ h. absurd (ground (arith, there, (trim_space-Blank l).1 h.0)),
  )
]

-- What `GetRequester` does with a pool.
pool-get_requester :
    (env : Environment) (network : Network) (pool : List ℕ)
    → get_requester env (new_http_client (record { ip_pool = some pool; network = network })) ≡ none
      ↔ pool ≡ []
unfolding get_requester bind_address random new_http_client
pool-get_requester env network [] = (λ e. refl, λ e. refl)
pool-get_requester env network (a ∷ rest) =
    let (ip, there) =
      get_elem?_of_lt (a ∷ rest) (env.pick (length (a ∷ rest)))
        (env.pick-lt (length (a ∷ rest)) (omega arith)) in
    (λ e. absurd (ground (arith, e, there)), λ e. absurd (cc))

-- If `ParseIPPool` accepts the lines of a file, a new client that draws its addresses from them panics
-- on its first `GetRequester`, for want of an address, exactly if there is only white space in them.
pub parse_ip_pool-get_requester :
    (env : Environment) (network : Network) (parse : Bytes → Option ℕ) (ls : List Bytes)
    (pool : List ℕ)
    → parse_ip_pool parse (some ls) ≡ some pool
    → get_requester env (new_http_client (record { ip_pool = some pool; network = network })) ≡ none
      ↔ AllBlank ls
unfolding parse_ip_pool
parse_ip_pool-get_requester env network parse ls pool e =
    let (panics, is_empty) = pool-get_requester env network pool in
    let (blank, back) = empty_pool parse ls pool e in
    (λ h. blank (panics h), λ h. is_empty (back h))
