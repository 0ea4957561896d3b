-- ===== src/Http/Requests.antt =====
-- util/http.go: `internalClient` and `endReader`, and who may run between their locks. An object is
-- named by its index in a list of all objects of its type.
use ytarchive_raw_go.Prelude.{
  ℕ, ◌+◌, ◌≡◌, ℤ, pos, ◌+ℤ◌, ◌-ℤ◌, eqb_ℤ, Bool, true, false, ◌&&◌, List, [], ◌∷◌, ◌++◌, Option,
  none, some, if◌then◌else◌, length, get_elem?, set,
}

-- `internalClient`. `is_closer`: its transport has a method `Close`; `closes` counts the calls of it.
pub record InternalClient : Type 0 where
  pub is_closer : Bool
  pub should_close : Bool
  pub pending_requests : ℤ
  pub closes : ℕ

-- A new client, by `createClient`: the transport of http3 has a method `Close`, that of net/http none.
abbrev pub new_client : (use_quic : Bool) → InternalClient
new_client use_quic = record {
  is_closer = use_quic;
  should_close = false;
  pending_requests = pos 0;
  closes = 0;
}

unfoldable pub do_close : InternalClient → InternalClient
do_close c = if c.is_closer then record c { closes = c.closes + 1 } else c

unfoldable pub close_if_idle : InternalClient → InternalClient
unfolding do_close
close_if_idle c = if c.should_close && eqb_ℤ c.pending_requests (pos 0) then do_close c else c

unfoldable pub start_close : InternalClient → InternalClient
unfolding do_close
start_close c =
    let c' = record c { should_close = true } in
    if eqb_ℤ c.pending_requests (pos 0) then do_close c' else c'

unfoldable pub start_request : InternalClient → Bool × InternalClient
start_request c =
    if c.should_close
    then (false, c)
    else (true, record c { pending_requests = c.pending_requests +ℤ pos 1 })

unfoldable pub end_request : InternalClient → InternalClient
unfolding close_if_idle
end_request c = close_if_idle (record c { pending_requests = c.pending_requests -ℤ pos 1 })

-- Where a call of `HttpRequester.Do` stands: not in a call, between the requester's lock and
-- `startRequest`, or waiting for the response.
pub data Call : Type 0 where
  idle : Call
  got : (client : ℕ) → Call
  sent : (client : ℕ) → Call

-- The `client` fields of all requesters and of all `endReader`s, all clients, and the calls.
pub record Heap : Type 0 where
  pub requesters : List (Option ℕ)
  pub clients : List InternalClient
  pub readers : List (Option ℕ)
  pub calls : List Call

abbrev pub update_client : Heap → ℕ → InternalClient → Heap
update_client h c k = record h { clients = set h.clients c k }

-- A step of the callers of a client that is configured with QUIC or without.
pub data Step (use_quic : Bool) (h : Heap) : Heap → Type 0 where
  -- `GetRequester` makes a requester with no client.
  create : Step use_quic h (record h { requesters = h.requesters ++ none ∷ [] })
  -- `Dispose`, with and without a client.
  dispose :
      (r c : ℕ) {k : InternalClient}
      → get_elem? h.requesters r ≡ some (some c)
      → get_elem? h.clients c ≡ some k
      → Step use_quic h (record h {
        requesters = set h.requesters r none;
        clients = set h.clients c (start_close k);
      })
  dispose_none : (r : ℕ) → get_elem? h.requesters r ≡ some none → Step use_quic h h
  -- The locked part of `HttpRequester.Do`: the requester has a client, or makes one.
  pick :
      (i r c : ℕ)
      → get_elem? h.calls i ≡ some idle
      → get_elem? h.requesters r ≡ some (some c)
      → Step use_quic h (record h { calls = set h.calls i (got c) })
  pick_new :
      (i r : ℕ)
      → get_elem? h.calls i ≡ some idle
      → get_elem? h.requesters r ≡ some none
      → Step use_quic h (record h {
        requesters = set h.requesters r (some (length h.clients));
        clients = h.clients ++ new_client use_quic ∷ [];
        calls = set h.calls i (got (length h.clients));
      })
  -- `startRequest`, and what `do` makes of its answer.
  begin :
      (i c : ℕ) {k : InternalClient}
      → get_elem? h.calls i ≡ some (got c)
      → get_elem? h.clients c ≡ some k
      → Step use_quic h (record h {
        clients = set h.clients c (start_request k).1;
        calls = set h.calls i (if (start_request k).0 then sent c else idle);
      })
  -- The transport's answer: a response, whose body is wrapped, or none.
  respond :
      (i c : ℕ)
      → get_elem? h.calls i ≡ some (sent c)
      → Step use_quic h
          (record h { readers = h.readers ++ some c ∷ []; calls = set h.calls i idle })
  fail :
      (i c : ℕ) {k : InternalClient}
      → get_elem? h.calls i ≡ some (sent c)
      → get_elem? h.clients c ≡ some k
      → Step use_quic h
          (record h { clients = set h.clients c (end_request k); calls = set h.calls i idle })
  -- `endReader.Close`, the first time and again.
  close :
      (d c : ℕ) {k : InternalClient}
      → get_elem? h.readers d ≡ some (some c)
      → get_elem? h.clients c ≡ some k
      → Step use_quic h
          (record h { clients = set h.clients c (end_request k); readers = set h.readers d none })
  close_again : (d : ℕ) → get_elem? h.readers d ≡ some none → Step use_quic h h

abbrev pub empty_heap : List Call → Heap
empty_heap calls = record { requesters = []; clients = []; readers = []; calls = calls }

-- All idle: no call has been made yet.
abbrev pub AllIdle : List Call → Type 0
AllIdle [] = Unit {0}
AllIdle (c ∷ cs) = (c ≡ idle) × AllIdle cs

pub data Reach (use_quic : Bool) (calls : List Call) : Heap → Type 0 where
  start : Reach use_quic calls (empty_heap calls)
  later : {h k : Heap} → Reach use_quic calls h → Step use_quic h k → Reach use_quic calls k
