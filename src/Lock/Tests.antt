-- ===== src/Lock/Tests.antt =====
-- Processes with a lock at concrete states.
use ytarchive_raw_go.Prelude.{ℕ, ◌≡◌, refl, ◌≢◌, some, arith}
use ytarchive_raw_go.Lock.{
  State, opened, holding, nobody, becomes, Reach, Step, start, later, opens, locks, open_path,
  one_until_unlock, two_after_unlock,
}

abbrev one_opened : State
one_opened = becomes 0 (opened 0) (record nobody { path = some 0; next = 1 })

abbrev one_holding : State
one_holding = becomes 0 (holding 0) one_opened

first_step : Step nobody one_opened
unfolding open_path
first_step = opens 0 refl

nobody_holds : (k : ℕ) → one_opened.process k ≢ holding 0
nobody_holds k = λ e. ground (arith, e)

one_holding-Reach : Reach nobody one_holding
one_holding-Reach = later (later start first_step) (locks 0 0 refl nobody_holds)

one_until_unlock_example : ◌≡◌ {A = ℕ} 0 0
one_until_unlock_example = one_until_unlock one_holding-Reach (λ k. ground arith) 0 0 0 0 refl refl

two_after_unlock_example :
    (t : State) × Reach one_holding t
    × (n : ℕ) × (m : ℕ) × (t.process 1 ≡ holding n)
    × (t.process 2 ≡ holding m)
two_after_unlock_example =
    two_after_unlock one_holding-Reach 0 1 2 0 refl refl refl refl (omega arith)
