-- ===== src/Lock.antt =====
-- util/lock.go: `LockFile` and the function that it returns, by processes that share a path. flock is outside: a
-- lock is on the file that the path named when it was opened, and the system refuses it while another process holds
-- it. Removing a name leaves the file to those who have it open. A call of the system is a step.
mod Tests
use ytarchive_raw_go.Prelude.{
  ℕ, suc, ◌+◌, ◌<◌, ◌≤◌, ◌≡◌, refl, sym, ◌∙◌, ap, subst, ◌≢◌, ◌⊎◌, inl, inr, Bool, true, false,
  Option, none, some, arith, ◌==◌, if◌then◌else◌, Bool-cases, Option-cases,
}

-- How far a process is; a file is a number.
pub data Process : Type 0 where
  idle : Process
  opened : (file : ℕ) → Process  -- within `TryLock`
  holding : (file : ℕ) → Process
  refused : Process  -- a message, and the end of the program
  unlocked : Process  -- after `lock.Unlock()`
  finished : Process  -- after `os.Remove(path)`

-- The file that the path names, the number of the next new file, and the processes.
pub record State : Type 0 where
  pub path : Option ℕ
  pub next : ℕ
  pub process : ℕ → Process

abbrev pub nobody : State
nobody = record { path = none; next = 0; process = λ k. idle }

abbrev pub becomes : ℕ → Process → State → State
becomes p x s = record s { process = λ k. if k == p then x else s.process k }

-- Opening makes a file if the path names none.
unfoldable pub open_path : ℕ → State → State
open_path p s = elim s.path [
  | some i ↦ becomes p (opened i) s
  | none ↦ becomes p (opened s.next) (record s { path = some s.next; next = suc s.next })
]

-- No other process holds the file.
abbrev pub Free : ℕ → State → Type 0
Free i s = (k : ℕ) → s.process k ≢ holding i

pub data Step : State → State → Type 0 where
  opens : {s : State} (p : ℕ) → s.process p ≡ idle → Step s (open_path p s)
  locks :
      {s : State} (p i : ℕ) → s.process p ≡ opened i → Free i s → Step s (becomes p (holding i) s)
  is_refused :
      {s : State} (p q i : ℕ)
      → s.process p ≡ opened i
      → s.process q ≡ holding i
      → Step s (becomes p refused s)
  not_opened : {s : State} (p : ℕ) → s.process p ≡ idle → Step s (becomes p refused s)
  not_locked : {s : State} (p i : ℕ) → s.process p ≡ opened i → Step s (becomes p refused s)
  unlocks : {s : State} (p i : ℕ) → s.process p ≡ holding i → Step s (becomes p unlocked s)
  removes :
      {s : State} (p : ℕ)
      → s.process p ≡ unlocked
      → Step s (becomes p finished (record s { path = none }))

pub data Reach : State → State → Type 0 where
  start : {s : State} → Reach s s
  later : {s t u : State} → Reach s t → Step t u → Reach s u

-- The process has a file.
abbrev pub has : Process → Option ℕ
has (opened i) = some i
has (holding i) = some i
has _ = none

-- The process has let its lock go.
abbrev pub is_over : Process → Bool
is_over unlocked = true
is_over finished = true
is_over _ = false

abbrev pub NoneOver : State → Type 0
NoneOver s = (k : ℕ) → is_over (s.process k) ≡ false

-- Each file was made, one process holds a file at most, and while no process has let its lock go all
-- have the file of the path.
record Inv (s : State) : Type 0 where
  pub made : (k i : ℕ) → has (s.process k) ≡ some i → i < s.next
  pub path_made : (i : ℕ) → s.path ≡ some i → i < s.next
  pub one : (j k i : ℕ) → s.process j ≡ holding i → s.process k ≡ holding i → j ≡ k
  pub named : NoneOver s → (k i : ℕ) → has (s.process k) ≡ some i → s.path ≡ some i

-- A process that has not let its lock go had not before.
still_none :
    (p : ℕ) (x : Process) (s : State)
    → is_over (s.process p) ≡ false
    → NoneOver (becomes p x s)
    → NoneOver s
still_none p x s e n k = ground (arith, e, n k)

opens-Inv : (p : ℕ) (s : State) → s.process p ≡ idle → Inv s → Inv (open_path p s)
unfolding open_path
opens-Inv p s e v = elim (Option-cases s.path) [
  | inr (i, there) ↦
      rw (there, open_path)
        (record {
          made = λ k j h. ground (arith, h, v.made k j, v.path_made i there);
          path_made = v.path_made;
          one = λ j k n h g. ground (arith, h, g, v.one j k n);
          named = λ n k j h.
              ground (arith, h, there, v.named (still_none p (opened i) s (rw e refl) n) k j);
        })
  | inl missing ↦
      rw (missing, open_path)
        (record {
          made = λ k j h. ground (arith, h, v.made k j);
          path_made = λ j h. ground (arith, h);
          one = λ j k n h g. ground (arith, h, g, v.one j k n);
          named = λ n k j h.
              ground
                (arith, h, missing, v.named (still_none p (opened s.next) s (rw e refl) n) k j);
        })
]

locks-Inv :
    (p i : ℕ) (s : State)
    → s.process p ≡ opened i
    → Free i s
    → Inv s
    → Inv (becomes p (holding i) s)
locks-Inv p i s e free v = record {
  made = λ k j h. ground (arith, e, h, v.made k j, v.made p i);
  path_made = v.path_made;
  one = λ j k n h g. ground (arith, h, g, v.one j k n, free j, free k);
  named = λ n k j h.
      (let before = v.named (still_none p (holding i) s (rw e refl) n) in
        ground (arith, e, h, before k j, before p i));
}

-- A process that is left without a file.
leaves-Inv :
    (p : ℕ) (x : Process) (s : State)
    → is_over (s.process p) ≡ false
    → has x ≡ none
    → Inv s
    → Inv (becomes p x s)
leaves-Inv p x s e nothing v = record {
  made = λ k j h. ground (arith, h, nothing, v.made k j);
  path_made = v.path_made;
  one = λ j k n h g. ground (arith, h, g, nothing, v.one j k n);
  named = λ n k j h. ground (arith, h, nothing, v.named (still_none p x s e n) k j);
}

removes-Inv :
    (p : ℕ) (s : State)
    → s.process p ≡ unlocked
    → Inv s
    → Inv (becomes p finished (record s { path = none }))
removes-Inv p s e v = record {
  made = λ k j h. ground (arith, h, v.made k j);
  path_made = λ j h. absurd (cc h);
  one = λ j k n h g. ground (arith, h, g, v.one j k n);
  named = λ n k j h. absurd (ground (arith, n p));
}

Step-Inv : {s t : State} → Step s t → Inv s → Inv t
Step-Inv {s} (opens p e) v = opens-Inv p s e v
Step-Inv {s} (locks p i e free) v = locks-Inv p i s e free v
Step-Inv {s} (is_refused p q i e h) v = leaves-Inv p refused s (rw e refl) refl v
Step-Inv {s} (not_opened p e) v = leaves-Inv p refused s (rw e refl) refl v
Step-Inv {s} (not_locked p i e) v = leaves-Inv p refused s (rw e refl) refl v
Step-Inv {s} (unlocks p i e) v = leaves-Inv p unlocked s (rw e refl) refl v
Step-Inv {s} (removes p e) v = removes-Inv p s e v

nobody-Inv : Inv nobody
nobody-Inv = record {
  made = λ k i h. absurd (cc h);
  path_made = λ i h. absurd (cc h);
  one = λ j k i h g. absurd (cc h);
  named = λ n k i h. absurd (cc h);
}

Reach-Inv : {s t : State} → Reach s t → Inv s → Inv t
Reach-Inv start v = v
Reach-Inv (later r x) v = Step-Inv x (Reach-Inv r v)

-- Until a process lets its lock go, one process at most holds a lock for the path.
pub one_until_unlock :
    {s : State}
    → Reach nobody s
    → NoneOver s
    → (j k i n : ℕ) → s.process j ≡ holding i
    → s.process k ≡ holding n
    → j ≡ k
one_until_unlock {s} r none_over j k i n h g =
    let v = Reach-Inv r nobody-Inv in
    let same : some i ≡ some n =
      sym (v.named none_over j i (rw h refl)) ∙ v.named none_over k n (rw g refl) in
    v.one j k i h (g ∙ ap holding (cc (sym same)))

opens_file :
    (p i : ℕ) (s : State) → s.process p ≡ idle → s.path ≡ some i → Step s (becomes p (opened i) s)
unfolding open_path
opens_file p i s e there = subst (Step s) (simp (there, open_path)) (opens p e)

opens_new :
    (p : ℕ) (s : State)
    → s.process p ≡ idle
    → s.path ≡ none
    → Step s (becomes p (opened s.next) (record s { path = some s.next; next = suc s.next }))
unfolding open_path
opens_new p s e missing = subst (Step s) (rw (missing, open_path) refl) (opens p e)

-- From any reachable state in which a process holds the file of the path and two others have not begun, the two can
-- both come to hold a lock for the path: one has opened the file before its holder removes it, and
-- the other makes a new one afterwards.
pub two_after_unlock :
    {s : State}
    → Reach nobody s
    → (p q r i : ℕ) → s.process p ≡ holding i
    → s.path ≡ some i
    → s.process q ≡ idle
    → s.process r ≡ idle
    → q ≢ r
    → (t : State) × Reach s t
      × (n : ℕ) × (m : ℕ) × (t.process q ≡ holding n)
      × (t.process r ≡ holding m)
two_after_unlock {s} reached p q r i held there q_idle r_idle apart =
    let v = Reach-Inv reached nobody-Inv in
    let s1 = becomes q (opened i) s in
    let s2 = becomes p unlocked s1 in
    let s3 = becomes q (holding i) s2 in
    let s4 = becomes p finished (record s3 { path = none }) in
    let s5 = becomes r (opened s.next) (record s4 { path = some s.next; next = suc s.next }) in
    let t = becomes r (holding s.next) s5 in
    let to1 : Step s s1 = opens_file q i s q_idle there in
    let to2 : Step s1 s2 = unlocks p i (ground (arith, held, q_idle)) in
    let to3 : Step s2 s3 =
      locks q i (ground (arith, held, q_idle))
        (λ k h. ground (arith, h, held, q_idle, v.one k p i)) in
    let to4 : Step s3 s4 = removes p (ground (arith, held, q_idle)) in
    let to5 : Step s4 s5 = opens_new r s4 (ground (arith, held, q_idle, r_idle, apart)) refl in
    let to6 : Step s5 t =
      locks r s.next (ground (arith, held, r_idle, apart))
        (λ k h. ground (arith, h, held, v.made k s.next, v.made p i)) in
    (
      t,
      later (later (later (later (later (later start to1) to2) to3) to4) to5) to6,
      i,
      s.next,
      ground (arith, held, q_idle, r_idle, apart),
      ground arith,
    )
