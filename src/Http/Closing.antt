-- ===== src/Http/Closing.antt =====
-- util/http.go: when the transport of a client that was replaced is closed.
use ytarchive_raw_go.Prelude.{
  ℕ, suc, ◌+◌, ◌≤◌, ◌≡◌, refl, sym, ap, subst, ◌∙◌, ◌≢◌, pos, ◌+ℤ◌, ◌-ℤ◌, +ℤ_parts, -ℤ_parts,
  eq_of_parts, Bool, true, false, ◌&&◌, List, [], ◌∷◌, ◌++◌, Option, none, some, arith, ◌==◌,
  if◌then◌else◌, length, get_elem?, set, sum_of, sum_of-set, sum_of-append, le-sum_of, length-set,
  length-append, get_elem?-set_cases, get_elem?-append_cases, get_elem?-set_ne, get_elem?-lt-length,
  inl, inr,
}
use mathlib.Core.Path.{subst₂}
use ytarchive_raw_go.Http.Requests.{
  InternalClient, new_client, start_close, start_request, end_request, Call, idle, got, sent, Heap,
  Step, create, dispose, dispose_none, pick, pick_new, begin, respond, fail, close, close_again,
  AllIdle, Reach, start, later,
}

-- 1 if the pointer is to client `c`, else 0.
abbrev pub points : ℕ → Option ℕ → ℕ
points c none = 0
points c (some d) = if d == c then 1 else 0

-- 1 if the call waits for a response of client `c`, else 0.
abbrev pub waits : ℕ → Call → ℕ
waits c (sent d) = if d == c then 1 else 0
waits c _ = 0

-- The requests and open response bodies of client `c`.
abbrev pub uses : ℕ → Heap → ℕ
uses c h = sum_of (waits c) h.calls + sum_of (points c) h.readers

abbrev pub owners : ℕ → Heap → ℕ
owners c h = sum_of (points c) h.requesters

-- What is true of a client with `n` uses and `m` requesters.
pub record IsCounted (q : Bool) (n m : ℕ) (k : InternalClient) : Type 0 where
  pub closer : k.is_closer ≡ q
  pub pending : k.pending_requests ≡ pos n
  pub owned : m + (if k.should_close then 1 else 0) ≡ 1
  pub closed : k.closes ≡ (if q && (k.should_close && n == 0) then 1 else 0)

pub record Inv (q : Bool) (h : Heap) : Type 0 where
  pub counted :
      (c : ℕ) (k : InternalClient)
      → get_elem? h.clients c ≡ some k
      → IsCounted q (uses c h) (owners c h) k
  pub fresh : (c : ℕ) → length h.clients ≤ c → (uses c h ≡ 0) × (owners c h ≡ 0)

plus_one : (n : ℕ) → pos n +ℤ pos 1 ≡ pos (n + 1)
plus_one n = eq_of_parts _ _ (omega (arith, +ℤ_parts (pos n) (pos 1)))

minus_one : (n : ℕ) → pos (n + 1) -ℤ pos 1 ≡ pos n
minus_one n = eq_of_parts _ _ (omega (arith, -ℤ_parts (pos (n + 1)) (pos 1)))

module _ (use_quic : Bool) where
  start_close-IsCounted :
      (n m : ℕ) (k : InternalClient)
      → IsCounted use_quic n (m + 1) k
      → IsCounted use_quic n m (start_close k)
  unfolding start_close
  start_close-IsCounted n m k v = ground arith

  start_request-IsCounted :
      (n m : ℕ) (k : InternalClient)
      → IsCounted use_quic n m k
      → IsCounted use_quic (n + (if (start_request k).0 then 1 else 0)) m (start_request k).1
  unfolding start_request
  start_request-IsCounted n m k v = ground (arith, plus_one n)

  end_request-IsCounted :
      (n m : ℕ) (k : InternalClient)
      → IsCounted use_quic (n + 1) m k
      → IsCounted use_quic n m (end_request k)
  unfolding end_request
  end_request-IsCounted n m k v = ground (arith, minus_one n)

  -- A step that leaves the clients alone and moves no count keeps the invariant.
  same_counts :
      (h h' : Heap)
      → h'.clients ≡ h.clients
      → ((c : ℕ) → (uses c h' ≡ uses c h) × (owners c h' ≡ owners c h))
      → Inv use_quic h
      → Inv use_quic h'
  same_counts h h' e same v = record {
    counted = λ c k ek.
        subst₂ (λ n m. IsCounted use_quic n m k) (sym (same c).0) (sym (same c).1)
          (v.counted c k (subst (λ l. get_elem? l c ≡ some k) e ek));
    fresh = λ c le.
        let f = v.fresh c (subst (λ l. length l ≤ c) e le) in
        (omega (arith, f, same c), omega (arith, f, same c));
  }

  -- A step that changes client `c` alone, with its counts.
  one_client :
      (h h' : Heap) (c : ℕ) (k k' : InternalClient)
      → get_elem? h.clients c ≡ some k
      → h'.clients ≡ set h.clients c k'
      → ((d : ℕ) → c ≢ d → (uses d h' ≡ uses d h) × (owners d h' ≡ owners d h))
      → IsCounted use_quic (uses c h') (owners c h') k'
      → Inv use_quic h
      → Inv use_quic h'
  one_client h h' c k k' ek e same now v = record {
    counted = λ d m em.
        elim (get_elem?-set_cases h.clients d c k' (subst (λ l. get_elem? l d ≡ some m) e em)) [
          | inl (here, new) ↦
              subst₂ (λ x y. IsCounted use_quic (uses x h') (owners x h') y) (sym here) new now
          | inr (away, old) ↦
              let (su, so) = same d (λ p. away (sym p)) in
              subst₂ (λ x y. IsCounted use_quic x y m) (sym su) (sym so) (v.counted d m old)
        ];
    fresh = λ d le.
        let beyond : length h.clients ≤ d =
          omega (arith, ap (length {A = InternalClient}) e, length-set h.clients c k') in
        let away : c ≢ d = λ p. omega (arith, get_elem?-lt-length h.clients c ek) in
        let f = v.fresh d beyond in (omega (arith, f, same d away), omega (arith, f, same d away));
  }

  dispose-counts :
      (h : Heap) (r c d : ℕ)
      → get_elem? h.requesters r ≡ some (some c)
      → sum_of (points d) (set h.requesters r none) + (if c == d then 1 else 0) ≡ owners d h
  dispose-counts h r c d e = omega (arith, sum_of-set (points d) h.requesters r none e)

  abbrev begun : Bool → ℕ → Call
  begun b c = if b then sent c else idle

  waits-begun :
      (d c : ℕ) (b : Bool) → waits d (begun b c) ≡ (if b then (if c == d then 1 else 0) else 0)
  waits-begun d c true = refl
  waits-begun d c false = refl

  -- `Do` of a requester without a client makes one that nobody else knows.
  pick_new-Inv :
      (h : Heap) (i r : ℕ)
      → get_elem? h.calls i ≡ some idle
      → get_elem? h.requesters r ≡ some none
      → Inv use_quic h
      → Inv use_quic (record h {
        requesters = set h.requesters r (some (length h.clients));
        clients = h.clients ++ new_client use_quic ∷ [];
        calls = set h.calls i (got (length h.clients));
      })
  pick_new-Inv h i r ei er v = record {
    counted = λ c k ek. elim (get_elem?-append_cases h.clients c (new_client use_quic) ek) [
      | inl (here, new) ↦ subst (IsCounted use_quic _ _) new (record {
        pending = ap pos (ground (arith, v.fresh c, calls_same c));
        owned = ground (arith, v.fresh c, one_more c);
        closed = ground arith;
        closer = refl;
      })
      | inr old ↦
          subst₂ (λ n m. IsCounted use_quic n m k) (omega (arith, calls_same c))
            (ground (arith, one_more c, get_elem?-lt-length h.clients c old)) (v.counted c k old)
    ];
    fresh = λ c le.
        let more : suc (length h.clients) ≤ c =
          omega (arith, length-append h.clients (new_client use_quic ∷ [])) in
        let f = v.fresh c (omega arith) in
        (omega (arith, f, calls_same c), ground (arith, f, one_more c));
  }
    where
      calls_same :
          (c : ℕ)
          → sum_of (waits c) (set h.calls i (got (length h.clients))) ≡ sum_of (waits c) h.calls
      calls_same c = omega (arith, sum_of-set (waits c) h.calls i (got (length h.clients)) ei)

      one_more :
          (c : ℕ)
          → sum_of (points c) (set h.requesters r (some (length h.clients)))
            ≡ owners c h + (if length h.clients == c then 1 else 0)
      one_more c = omega (arith, sum_of-set (points c) h.requesters r (some (length h.clients)) er)

  Step-Inv : {h h' : Heap} → Step use_quic h h' → Inv use_quic h → Inv use_quic h'
  Step-Inv {h} create v =
      same_counts h _ refl
        (λ c. (refl, omega (arith, sum_of-append (points c) h.requesters (none ∷ [])))) v
  Step-Inv {h} (dispose r c {k} er ek) v =
      one_client h _ c k (start_close k) ek refl
        (λ d n. (refl, ground (arith, dispose-counts h r c d er)))
        (start_close-IsCounted _ _ k (
          subst (λ m. IsCounted use_quic (uses c h) m k) (ground (arith, dispose-counts h r c c er))
            (v.counted c k ek)))
        v
  Step-Inv (dispose_none r e) v = v
  Step-Inv {h} (pick i r c ei er) v =
      same_counts h _ refl (λ d. (omega (arith, sum_of-set (waits d) h.calls i (got c) ei), refl)) v
  Step-Inv {h} (pick_new i r ei er) v = pick_new-Inv h i r ei er v
  Step-Inv {h} (begin i c {k} ei ek) v =
      one_client h _ c k (start_request k).1 ek refl
        (λ d n. (
          ground (
            arith,
            sum_of-set (waits d) h.calls i (begun (start_request k).0 c) ei,
            waits-begun d c (start_request k).0,
          ),
          refl,
        ))
        (subst (λ m. IsCounted use_quic m (owners c h) (start_request k).1)
          (ground (
            arith,
            sum_of-set (waits c) h.calls i (begun (start_request k).0 c) ei,
            waits-begun c c (start_request k).0,
          ))
          (start_request-IsCounted _ _ k (v.counted c k ek)))
        v
  Step-Inv {h} (respond i c ei) v =
      same_counts h _ refl
        (λ d. (
          ground (
            arith,
            sum_of-set (waits d) h.calls i idle ei,
            sum_of-append (points d) h.readers (some c ∷ []),
          ),
          refl,
        ))
        v
  Step-Inv {h} (fail i c {k} ei ek) v =
      one_client h _ c k (end_request k) ek refl
        (λ d n. (ground (arith, sum_of-set (waits d) h.calls i idle ei), refl))
        (end_request-IsCounted _ _ k (
          subst (λ m. IsCounted use_quic m (owners c h) k)
            (ground (arith, sum_of-set (waits c) h.calls i idle ei)) (v.counted c k ek)))
        v
  Step-Inv {h} (close d c {k} ed ek) v =
      one_client h _ c k (end_request k) ek refl
        (λ e n. (ground (arith, sum_of-set (points e) h.readers d none ed), refl))
        (end_request-IsCounted _ _ k (
          subst (λ m. IsCounted use_quic m (owners c h) k)
            (ground (arith, sum_of-set (points c) h.readers d none ed)) (v.counted c k ek)))
        v
  Step-Inv (close_again d e) v = v

  AllIdle-waits : (c : ℕ) (calls : List Call) → AllIdle calls → sum_of (waits c) calls ≡ 0
  AllIdle-waits c [] v = refl
  AllIdle-waits c (x ∷ xs) v = omega (arith, waits_idle c x v.0, AllIdle-waits c xs v.1)
    where
      waits_idle : (c : ℕ) (x : Call) → x ≡ idle → waits c x ≡ 0
      waits_idle c x e = rw e

  Reach-Inv :
      {calls : List Call} {h : Heap} → AllIdle calls → Reach use_quic calls h → Inv use_quic h
  Reach-Inv {calls} idle_calls start = record {
    counted = λ c k e. cc;
    fresh = λ c le. (omega (arith, AllIdle-waits c calls idle_calls), refl);
  }
  Reach-Inv i (later r st) = Step-Inv st (Reach-Inv i r)

  -- In every state that the callers of one `HttpClient` can reach, in any order: with QUIC, a client
  -- that is no requester's any more has had its transport closed exactly once if it has no request under
  -- way and no response body open, and not at all otherwise, and the transport of a requester's client
  -- has not been closed; without QUIC, no transport is ever closed. The count of pending requests is
  -- the number of the client's requests under way and open bodies.
  pub closed_exactly_once :
      (calls : List Call) {h : Heap}
      → AllIdle calls
      → Reach use_quic calls h
      → (c : ℕ) (k : InternalClient) → get_elem? h.clients c ≡ some k
      → (k.closes ≡ (if use_quic && (owners c h == 0 && uses c h == 0) then 1 else 0))
        × (k.pending_requests ≡ pos (uses c h))
  closed_exactly_once calls idle_calls r c k e =
      let v = (Reach-Inv idle_calls r).counted c k e in
      (ground (arith, v.closed, v.owned), v.pending)

  -- In every such state, a client that is the client of some requester has not been asked to close, and
  -- is the client of no other requester.
  pub owner_is_open :
      (calls : List Call) {h : Heap}
      → AllIdle calls
      → Reach use_quic calls h
      → (r c : ℕ) (k : InternalClient) → get_elem? h.requesters r ≡ some (some c)
      → get_elem? h.clients c ≡ some k
      → (k.should_close ≡ false) × ((s : ℕ) → r ≢ s → get_elem? h.requesters s ≢ some (some c))
  owner_is_open calls {h} idle_calls reach r c k er ek =
      let v = (Reach-Inv idle_calls reach).counted c k ek in
      (
        ground (arith, v.owned, le-sum_of (points c) h.requesters r er),
        λ s n es. ground (
          arith,
          v.owned,
          sum_of-set (points c) h.requesters r none er,
          le-sum_of (points c) (set h.requesters r none) s
              (get_elem?-set_ne h.requesters none n ∙ es),
        ),
      )
