-- ===== src/Http/Reuse.antt =====
-- One requester for one address, for the life of the client.
use ytarchive_raw_go.Prelude.{
  ℕ, ◌≡◌, refl, sym, subst, ◌∙◌, ◌≢◌, List, [], ◌∷◌, ◌++◌, Option, none, some, arith, length,
  get_elem?, get_elem?-append_last, get_elem?-append_left, get_elem?-lt-length, get_elem?_of_lt,
}
use ytarchive_raw_go.Prelude.Dict.{lookup, assign, lookup-assign}
use ytarchive_raw_go.Http.Requester.{
  Network, any, ipv4, ipv6, HttpClientConfig, HttpRequester, HttpClient, new_http_client,
  Environment, random, bind_address, requester_for, get_requester,
}

-- The requester in the client's tables for a bind address.
abbrev pub known : Option ℕ → HttpClient → Option ℕ
known none c = c.any_requester
known (some ip) c = lookup ip c.requesters

-- The tables name requesters that were made for the address under which they stand.
abbrev pub IsValid : HttpClient → Type 0
IsValid c =
    (ip : Option ℕ) (r : ℕ) → known ip c ≡ some r → get_elem? c.made r ≡ some (record { ip = ip })

pub new_http_client-IsValid : (cfg : HttpClientConfig) → IsValid (new_http_client cfg)
unfolding new_http_client lookup
new_http_client-IsValid cfg none r e = cc
new_http_client-IsValid cfg (some ip) r e = cc

kept :
    (made : List HttpRequester) (x : HttpRequester) (r : ℕ) {y : HttpRequester}
    → get_elem? made r ≡ some y
    → get_elem? (made ++ x ∷ []) r ≡ some y
kept made x r e = get_elem?-append_left made (x ∷ []) r (get_elem?-lt-length made r e) ∙ e

-- What `GetRequester` does with the tables, for the address `ip`.
record Gives (ip : Option ℕ) (c : HttpClient) (r : ℕ × HttpClient) : Type 0 where
  pub valid : IsValid r.1
  pub listed : known ip r.1 ≡ some r.0
  pub stable : (other : Option ℕ) (q : ℕ) → known other c ≡ some q → known other r.1 ≡ some q
  pub same_cfg : r.1.cfg ≡ c.cfg

any-Gives :
    (c : HttpClient) (o : Option ℕ)
    → c.any_requester ≡ o
    → IsValid c
    → Gives none c (requester_for none c)
unfolding requester_for
any-Gives c (some r) e v =
    simp (e, requester_for)
      (record { valid = v; listed = e; stable = λ other q h. h; same_cfg = refl })
any-Gives c none e v =
    simp (e, requester_for)
      (record {
        valid = λ ip r h. any-IsValid ip r h;
        listed = refl;
        stable = λ other q h. any-stable other q h;
        same_cfg = refl;
      })
  where
    new : HttpClient
    new = record c {
      any_requester = some (length c.made);
      made = c.made ++ (record { ip = none } ∷ []);
    }

    any-IsValid :
        (ip : Option ℕ) (r : ℕ)
        → known ip new ≡ some r
        → get_elem? new.made r ≡ some (record { ip = ip })
    any-IsValid none r h =
        subst (λ x. get_elem? new.made x ≡ some (record { ip = none })) {x = length c.made} {y = r}
          (cc) (get_elem?-append_last c.made (record { ip = none }))
    any-IsValid (some ip) r h = kept c.made (record { ip = none }) r (v (some ip) r h)

    any-stable : (other : Option ℕ) (q : ℕ) → known other c ≡ some q → known other new ≡ some q
    any-stable none q h = absurd (cc (sym e ∙ h))
    any-stable (some ip) q h = h

address-Gives :
    (a : ℕ) (c : HttpClient) (o : Option ℕ)
    → lookup a c.requesters ≡ o
    → IsValid c
    → Gives (some a) c (requester_for (some a) c)
unfolding requester_for
address-Gives a c (some r) e v =
    rw (e, requester_for)
      (record { valid = v; listed = e; stable = λ other q h. h; same_cfg = refl })
address-Gives a c none e v =
    rw (e, requester_for)
      (record {
        valid = λ ip r h. address-IsValid ip r h;
        listed = ground (arith, lookup-assign a a (length c.made) c.requesters);
        stable = λ other q h. address-stable other q h;
        same_cfg = refl;
      })
  where
    new : HttpClient
    new = record c {
      requesters = assign a (length c.made) c.requesters;
      made = c.made ++ (record { ip = some a } ∷ []);
    }

    address-IsValid :
        (ip : Option ℕ) (r : ℕ)
        → known ip new ≡ some r
        → get_elem? new.made r ≡ some (record { ip = ip })
    address-IsValid none r h = kept c.made (record { ip = some a }) r (v none r h)
    address-IsValid (some ip) r h = ground (
      arith,
      lookup-assign a ip (length c.made) c.requesters,
      get_elem?-append_last c.made (record { ip = some a }),
      λ (old : lookup ip c.requesters ≡ some r).
          kept c.made (record { ip = some a }) r (v (some ip) r old),
    )

    address-stable : (other : Option ℕ) (q : ℕ) → known other c ≡ some q → known other new ≡ some q
    address-stable none q h = h
    address-stable (some ip) q h = ground (arith, lookup-assign a ip (length c.made) c.requesters)

requester_for-Gives : (ip : Option ℕ) (c : HttpClient) → IsValid c → Gives ip c (requester_for ip c)
requester_for-Gives none c v = any-Gives c c.any_requester refl v
requester_for-Gives (some a) c v = address-Gives a c (lookup a c.requesters) refl v

random_total : (env : Environment) (xs : List ℕ) → xs ≢ [] → (a : ℕ) × (random env xs ≡ some a)
unfolding random
random_total env [] h = absurd (h refl)
random_total env (a ∷ rest) h =
    get_elem?_of_lt (a ∷ rest) _ (env.pick-lt (length (a ∷ rest)) (omega arith))

bind_total :
    (env : Environment) (n : Network) (pool : Option (List ℕ))
    → ((xs : List ℕ) → pool ≡ some xs → xs ≢ [])
    → (ip : Option ℕ) × (bind_address env (record { ip_pool = pool; network = n }) ≡ some ip)
unfolding bind_address
bind_total env n (some xs) h =
    let (a, e) = random_total env xs (h xs refl) in (some a, rw (e, bind_address))
bind_total env any none h = (none, refl)
bind_total env ipv4 none h = (some env.any_ipv4, refl)
bind_total env ipv6 none h = (some env.any_ipv6, refl)

-- With a pool of addresses that is not empty, or none, `GetRequester` does not panic. It gives a
-- requester bound to the address that was chosen, the one that the client had for that address if
-- it had one; it keeps all requesters that the client had, and the client's tables stay valid.
pub get_requester_lem :
    (env : Environment) (c : HttpClient)
    → IsValid c
    → ((xs : List ℕ) → c.cfg.ip_pool ≡ some xs → xs ≢ [])
    → (ip : Option ℕ) × (r : ℕ) × (c' : HttpClient) × (bind_address env c.cfg ≡ some ip)
      × (get_requester env c ≡ some (r, c'))
      × (get_elem? c'.made r ≡ some (record { ip = ip }))
      × ((other : Option ℕ) (q : ℕ) → known other c ≡ some q → known other c' ≡ some q)
      × (known ip c' ≡ some r)
      × IsValid c'
unfolding get_requester
get_requester_lem env c v full =
    let (ip, e) = bind_total env c.cfg.network c.cfg.ip_pool full in
    let g = requester_for-Gives ip c v in
    (
      ip,
      (requester_for ip c).0,
      (requester_for ip c).1,
      e,
      rw (e, get_requester),
      g.valid ip _ g.listed,
      g.stable,
      g.listed,
      g.valid,
    )
