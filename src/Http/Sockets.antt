-- ===== src/Http/Sockets.antt =====
-- util/http.go: `HttpClient.getSocket` and `createClient`, the sockets that requests over QUIC are sent from. An
-- address is the number of a `netaddr.IP`; listening and resolving a name are outside.
use ytarchive_raw_go.Prelude.{
  ℕ, ◌≡◌, sym, subst, ◌∙◌, ◌↔◌, Bool, List, [], ◌∷◌, ◌++◌, Option, none, some, arith, length,
  get_elem?, if◌then◌else◌, get_elem?-append_last, get_elem?-append_left, get_elem?-lt-length,
  Option-cases, inl, inr,
}
use ytarchive_raw_go.Prelude.Dict.{lookup, assign, lookup-assign}

pub data Family : Type 0 where
  udp4 udp6 : Family

pub record Socket : Type 0 where
  pub family : Family
  pub ip : ℕ

-- The sockets of an `HttpClient`, with all that it opened: none is closed.
pub record Sockets : Type 0 where
  pub table : List (ℕ × ℕ)  -- `map[netaddr.IP]quic.OOBCapablePacketConn`
  pub opened : List Socket

abbrev pub no_sockets : Sockets
no_sockets = record { table = []; opened = [] }

-- The transport of a client, with the address that it dials from: `none` leaves it to the system.
pub data Transport : Type 0 where
  quic : Option ℕ → Transport
  tcp : Option ℕ → Transport

-- `createClient`
unfoldable pub create_client : (use_quic : Bool) → Option ℕ → Transport
create_client use_quic ip = if use_quic then quic ip else tcp ip

-- One call of the `Dial` of a QUIC transport: what its remote address resolves to, and whether a socket can be
-- opened.
pub record Dial : Type 0 where
  pub ip : ℕ
  pub resolve : Family → Option ℕ
  pub listens : Bool

module _ (is6 : ℕ → Bool) where
  unfoldable pub family_of : ℕ → Family
  family_of ip = if is6 ip then udp6 else udp4

  unfoldable pub get_socket : Bool → ℕ → Sockets → Option ℕ × Sockets
  unfolding family_of
  get_socket listens ip s = elim (lookup ip s.table) [
    | some k ↦ (some k, s)
    | none ↦
        if listens
        then (
          some (length s.opened),
          record {
            table = assign ip (length s.opened) s.table;
            opened = s.opened ++ (record { family = family_of ip; ip = ip } ∷ []);
          },
        )
        else (none, s)
  ]

  -- The `Dial` of `createClient`: the socket and the remote address of the connection.
  unfoldable pub dial : Dial → Sockets → Option (ℕ × ℕ) × Sockets
  unfolding get_socket family_of
  dial d s = elim (d.resolve (family_of d.ip)) [
    | none ↦ (none, s)
    | some remote ↦
        let r = get_socket d.listens d.ip s in
        (elim r.0 [ none ↦ none | some k ↦ some (k, remote) ], r.1)
  ]

  unfoldable pub dial_all : List Dial → Sockets → Sockets
  unfolding dial
  dial_all [] s = s
  dial_all (d ∷ ds) s = dial_all ds (dial d s).1

  abbrev pub socket_at : ℕ → Socket
  socket_at ip = record { family = family_of ip; ip = ip }

  -- The table names, for an address, a socket that is bound to it.
  abbrev pub IsValid : Sockets → Type 0
  IsValid s = (ip k : ℕ) → lookup ip s.table ≡ some k → get_elem? s.opened k ≡ some (socket_at ip)

  -- What a step keeps: the table stays valid, and keeps what it has.
  record Keeps (s t : Sockets) : Type 0 where
    pub valid : IsValid t
    pub stable : (ip k : ℕ) → lookup ip s.table ≡ some k → lookup ip t.table ≡ some k

  kept :
      (xs : List Socket) (x y : Socket) (k : ℕ)
      → get_elem? xs k ≡ some y
      → get_elem? (xs ++ x ∷ []) k ≡ some y
  kept xs x y k e = get_elem?-append_left xs (x ∷ []) k (get_elem?-lt-length xs k e) ∙ e

  get_socket-Keeps :
      (listens : Bool) (ip : ℕ) (s : Sockets) → IsValid s → Keeps s (get_socket listens ip s).1
  unfolding get_socket
  get_socket-Keeps listens ip s v = record {
    valid = λ i k e. ground (
      arith,
      e,
      lookup-assign ip i (length s.opened) s.table,
      get_elem?-append_last s.opened (socket_at ip),
      v i k,
      λ (old : lookup i s.table ≡ some k). kept s.opened (socket_at ip) (socket_at i) k (v i k old),
    );
    stable = λ i k e. ground (arith, e, lookup-assign ip i (length s.opened) s.table);
  }

  get_socket-listed :
      (listens : Bool) (ip k : ℕ) (s : Sockets)
      → (get_socket listens ip s).0 ≡ some k
      → lookup ip (get_socket listens ip s).1.table ≡ some k
  unfolding get_socket
  get_socket-listed listens ip k s e =
      ground (arith, e, lookup-assign ip ip (length s.opened) s.table)

  dial-Keeps : (d : Dial) (s : Sockets) → IsValid s → Keeps s (dial d s).1
  unfolding dial
  dial-Keeps d s v = elim (Option-cases (d.resolve (family_of d.ip))) [
    | inl nothing ↦ rw (nothing, dial) (record { valid = v; stable = λ ip k e. e })
    | inr (remote, e) ↦ rw (e, dial) (get_socket-Keeps d.listens d.ip s v)
  ]

  dial_all-Keeps : (ds : List Dial) (s : Sockets) → IsValid s → Keeps s (dial_all ds s)
  unfolding dial_all
  dial_all-Keeps [] s v = record { valid = v; stable = λ ip k e. e }
  dial_all-Keeps (d ∷ ds) s v =
      let one = dial-Keeps d s v in
      let rest = dial_all-Keeps ds (dial d s).1 one.valid in
      record { valid = rest.valid; stable = λ ip k e. rest.stable ip k (one.stable ip k e) }

  -- A dial that gets a connection gets it from the socket in the table.
  dial-listed :
      (d : Dial) (s : Sockets) (k remote : ℕ)
      → (dial d s).0 ≡ some (k, remote)
      → (lookup d.ip (dial d s).1.table ≡ some k) × (d.resolve (family_of d.ip) ≡ some remote)
  unfolding dial
  dial-listed d s k remote e = ground (arith, e, get_socket-listed d.listens d.ip k s)

  no_sockets-IsValid : IsValid no_sockets
  unfolding lookup
  no_sockets-IsValid ip k e = cc

  -- After any dials of a client, a dial that gets a connection gets it from a socket that is bound to
  -- the dial's address, in the family of the address, to a remote address of the same family; and
  -- after any further dials, one that gets a connection gets it from the same socket exactly if its
  -- address is the same.
  pub one_socket_for_address :
      (before between : List Dial) (d e : Dial) (k q remote other : ℕ)
      → let s = dial_all before no_sockets in
        let t = dial_all between (dial d s).1 in
        (dial d s).0 ≡ some (k, remote)
        → (dial e t).0 ≡ some (q, other)
        → (get_elem? (dial d s).1.opened k ≡ some (socket_at d.ip))
          × (d.resolve (family_of d.ip) ≡ some remote)
          × (k ≡ q ↔ d.ip ≡ e.ip)
  one_socket_for_address before between d e k q remote other first second =
      let s = dial_all before no_sockets in
      let t = dial_all between (dial d s).1 in
      let at_s = dial_all-Keeps before no_sockets no_sockets-IsValid in
      let at_d = dial-Keeps d s at_s.valid in
      let at_t = dial_all-Keeps between (dial d s).1 at_d.valid in
      let at_e = dial-Keeps e t at_t.valid in
      let (listed, resolved) = dial-listed d s k remote first in
      let (listed_later, _) = dial-listed e t q other second in
      let still = at_e.stable d.ip k (at_t.stable d.ip k listed) in
      (
        at_d.valid d.ip k listed,
        resolved,
        (
          λ same.
              let own = at_e.valid d.ip k still in
              let its : get_elem? (dial e t).1.opened k ≡ some (socket_at e.ip) =
                subst (λ n. get_elem? (dial e t).1.opened n ≡ some (socket_at e.ip)) (sym same)
                  (at_e.valid e.ip q listed_later) in
              cc (sym own ∙ its),
          λ same.
              cc (
                sym (subst (λ ip. lookup ip (dial e t).1.table ≡ some k) same still)
                ∙ listed_later),
        ),
      )
