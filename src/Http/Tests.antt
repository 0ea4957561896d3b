-- ===== src/Http/Tests.antt =====
-- The client at concrete inputs.
use ytarchive_raw_go.Prelude.{
  ℕ, ◌-◌, ◌<◌, ◌≡◌, refl, ◌≢◌, ◌↔◌, ◌+ℤ◌, ◌-ℤ◌, pos, ltb, Bool, true, false, List, [], ◌∷◌, Option,
  none, some, arith, get_elem?,
}
use ytarchive_raw_go.Http.Requests.{
  InternalClient, start_request, start_close, end_request, Call, idle, sent, Heap, create, pick_new,
  begin, respond, dispose, close, Reach, start, later,
}
use ytarchive_raw_go.Http.Closing.{closed_exactly_once}
use ytarchive_raw_go.Http.Requester.{
  any, HttpClient, new_http_client, Environment, bind_address, get_requester,
}
use ytarchive_raw_go.Prelude.Text.{codes}
use ytarchive_raw_go.Http.IpPool.{parse_ip_pool, AllBlank, parse_ip_pool-get_requester}
use ytarchive_raw_go.Prelude.Dict.{lookup, assign}
use ytarchive_raw_go.Http.Sockets.{
  Dial, no_sockets, family_of, get_socket, dial, dial_all, socket_at, one_socket_for_address,
}
use ytarchive_raw_go.Http.Reuse.{known, IsValid, new_http_client-IsValid, get_requester_lem}

abbrev one_call : List Call
one_call = idle ∷ []

-- A request has been sent.
abbrev waiting : Heap
waiting = record {
  requesters = some 0 ∷ [];
  clients =
      record { is_closer = true; should_close = false; pending_requests = pos 1; closes = 0 } ∷ [];
  readers = [];
  calls = sent 0 ∷ [];
}

waiting-Reach : Reach true one_call waiting
unfolding start_request ◌+ℤ◌
waiting-Reach = later (later (later start create) (pick_new 0 0 refl refl)) (begin 0 0 refl refl)

-- The response came, the requester was disposed of, and the body is still open.
abbrev open_body : Heap
open_body = record {
  requesters = none ∷ [];
  clients =
      record { is_closer = true; should_close = true; pending_requests = pos 1; closes = 0 } ∷ [];
  readers = some 0 ∷ [];
  calls = idle ∷ [];
}

open_body-Reach : Reach true one_call open_body
unfolding start_close
open_body-Reach = later (later waiting-Reach (respond 0 0 refl)) (dispose 0 0 refl refl)

-- The body was read and closed: now the transport is closed.
abbrev closed_body : Heap
closed_body = record {
  requesters = none ∷ [];
  clients =
      record { is_closer = true; should_close = true; pending_requests = pos 0; closes = 1 } ∷ [];
  readers = none ∷ [];
  calls = idle ∷ [];
}

closed_body-Reach : Reach true one_call closed_body
unfolding end_request ◌-ℤ◌
closed_body-Reach = later open_body-Reach (close 0 0 refl refl)

abbrev closed_client : InternalClient
closed_client = record {
  is_closer = true;
  should_close = true;
  pending_requests = pos 0;
  closes = 1;
}

closed_exactly_once_example :
    ◌≡◌ {A = ℕ} closed_client.closes 1 × (closed_client.pending_requests ≡ pos 0)
closed_exactly_once_example =
    closed_exactly_once true one_call (refl, tt) closed_body-Reach 0 closed_client refl

abbrev waiting_client : InternalClient
waiting_client = record {
  is_closer = true;
  should_close = false;
  pending_requests = pos 1;
  closes = 0;
}

pick_last-lt : (n : ℕ) → 0 < n → n - 1 < n
pick_last-lt n h = omega arith

-- An environment whose random choice is the last address.
abbrev last_choice : Environment
last_choice = record { pick = λ n. n - 1; pick-lt = pick_last-lt; any_ipv4 = 0; any_ipv6 = 1 }

abbrev pooled : HttpClient
pooled = record {
  cfg = record { ip_pool = some (10 ∷ 20 ∷ []); network = any };
  requesters = [];
  any_requester = none;
  made = [];
}

pooled-IsValid : IsValid pooled
unfolding new_http_client
pooled-IsValid = new_http_client-IsValid (record { ip_pool = some (10 ∷ 20 ∷ []); network = any })

pool_not_empty : (xs : List ℕ) → pooled.cfg.ip_pool ≡ some xs → xs ≢ []
pool_not_empty xs e n = cc

get_requester_example :
    (ip : Option ℕ) × (r : ℕ) × (c' : HttpClient) × (bind_address last_choice pooled.cfg ≡ some ip)
    × (get_requester last_choice pooled ≡ some (r, c'))
    × (get_elem? c'.made r ≡ some (record { ip = ip }))
    × ((other : Option ℕ) (q : ℕ) → known other pooled ≡ some q → known other c' ≡ some q)
    × (known ip c' ≡ some r)
    × IsValid c'
get_requester_example = get_requester_lem last_choice pooled pooled-IsValid pool_not_empty

second_address : bind_address last_choice pooled.cfg ≡ some (some 20)
unfolding bind_address
second_address = refl

-- A file with one line, of two spaces, gives a pool without an address.
only_spaces : parse_ip_pool (λ t. some 7) (some (codes "  " ∷ [])) ≡ some []
unfolding parse_ip_pool
only_spaces = refl

parse_ip_pool_example :
    get_requester last_choice (new_http_client (record { ip_pool = some []; network = any })) ≡ none
    ↔ AllBlank (codes "  " ∷ [])
parse_ip_pool_example =
    parse_ip_pool-get_requester last_choice any (λ t. some 7) (codes "  " ∷ []) [] only_spaces

-- Addresses above 3 are IPv6 here.
abbrev some_addresses : ℕ → Bool
some_addresses ip = ltb 3 ip

abbrev a_dial : Dial
a_dial = record { ip = 5; resolve = λ f. some 9; listens = true }

one_socket_example :
    (get_elem? (dial some_addresses a_dial no_sockets).1.opened 0
      ≡ some (socket_at some_addresses 5))
    × (◌≡◌ {A = Option ℕ} (some 9) (some 9))
    × (◌≡◌ {A = ℕ} 0 0 ↔ ◌≡◌ {A = ℕ} 5 5)
unfolding dial dial_all get_socket lookup family_of assign
one_socket_example = one_socket_for_address some_addresses [] [] a_dial a_dial 0 0 9 9 refl refl
