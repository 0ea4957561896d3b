-- ===== src/Http/Requester.antt =====
-- util/http.go: `HttpClient.GetRequester`, the address a request is sent from. An address is the
-- number of a `netaddr.IP`, which the code only compares; a requester is the index of its object.
use ytarchive_raw_go.Prelude.{ℕ, ◌<◌, List, [], ◌∷◌, ◌++◌, Option, none, some, length, get_elem?}
use ytarchive_raw_go.Prelude.Dict.{lookup, assign}

pub data Network : Type 0 where
  any ipv4 ipv6 : Network

-- `HttpClientConfig`: the addresses of the pool, if there is one. `UseQuic` only picks a transport.
pub record HttpClientConfig : Type 0 where
  pub ip_pool : Option (List ℕ)
  pub network : Network

-- The fields of `HttpRequester` that never change.
pub record HttpRequester : Type 0 where
  pub ip : Option ℕ

-- `HttpClient`, less its sockets and locks, with all requesters that it has made.
pub record HttpClient : Type 0 where
  pub cfg : HttpClientConfig
  pub requesters : List (ℕ × ℕ)  -- `map[netaddr.IP]*HttpRequester`
  pub any_requester : Option ℕ
  pub made : List HttpRequester

unfoldable pub new_http_client : HttpClientConfig → HttpClient
new_http_client cfg = record { cfg = cfg; requesters = []; any_requester = none; made = [] }

-- What the client takes from outside: `rand.Intn`, and the two unspecified addresses of `netaddr`.
-- `pick n` is the answer of one call with the argument `n`.
pub record Environment : Type 0 where
  pub pick : ℕ → ℕ
  pub pick-lt : (n : ℕ) → 0 < n → pick n < n
  pub any_ipv4 : ℕ
  pub any_ipv6 : ℕ

module _ (env : Environment) where
  -- `IPPool.random`. `none` is the panic on an empty pool.
  unfoldable pub random : List ℕ → Option ℕ
  random [] = none
  random (a ∷ rest) = get_elem? (a ∷ rest) (env.pick (length (a ∷ rest)))

  -- The `bindAddr` of `GetRequester`: `none` for a panic, `some none` for a nil pointer.
  unfoldable pub bind_address : HttpClientConfig → Option (Option ℕ)
  unfolding random
  bind_address cfg = elim cfg.ip_pool [
    | some addresses ↦ elim (random addresses) [ none ↦ none | some a ↦ some (some a) ]
    | none ↦ elim cfg.network [
      | any ↦ some none
      | ipv4 ↦ some (some env.any_ipv4)
      | ipv6 ↦ some (some env.any_ipv6)
    ]
  ]

-- The locked part of `GetRequester`: the requester for an address, made if there is none.
unfoldable pub requester_for : Option ℕ → HttpClient → ℕ × HttpClient
requester_for none c = elim c.any_requester [
  | some r ↦ (r, c)
  | none ↦ (
    length c.made,
    record c { any_requester = some (length c.made); made = c.made ++ (record { ip = none } ∷ []) },
  )
]
requester_for (some ip) c = elim (lookup ip c.requesters) [
  | some r ↦ (r, c)
  | none ↦ (
    length c.made,
    record c {
      requesters = assign ip (length c.made) c.requesters;
      made = c.made ++ (record { ip = some ip } ∷ []);
    },
  )
]

unfoldable pub get_requester : Environment → HttpClient → Option (ℕ × HttpClient)
unfolding bind_address requester_for
get_requester env c = elim (bind_address env c.cfg) [
  | none ↦ none
  | some ip ↦ some (requester_for ip c)
]
