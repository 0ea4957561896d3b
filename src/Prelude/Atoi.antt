-- ===== src/Prelude/Atoi.antt =====
-- `strconv.Atoi`, which update_check.go and download/parsed_url.go use.
use ytarchive_raw_go.Prelude.Tests.{◌==◌, ltb, leb, if◌then◌else◌}
use ytarchive_raw_go.Prelude.Int.{ℤ, pos, negsuc}
use ytarchive_raw_go.Prelude.Text.{Bytes}
use Prim.Native.Nat.{ℕ, ◌+◌, ◌-◌, ◌*◌, ◌^◌}
use mathlib.Core.Bool.{◌&&◌}
use mathlib.Core.List.{[], ◌∷◌}
use mathlib.Core.Option.{Option, none, some}

-- The number that decimal digits stand for, after `acc`.
unfoldable pub digits_from : ℕ → Bytes → Option ℕ
digits_from acc [] = some acc
digits_from acc (c ∷ cs) =
    let rest = digits_from (10 * acc + (c - b'0')) cs in
    if leb b'0' c && leb c b'9' then rest else none

-- At least one digit.
unfoldable pub digits : Bytes → Option ℕ
unfolding digits_from
digits [] = none
digits (c ∷ cs) = digits_from 0 (c ∷ cs)

-- `strconv.Atoi`: an optional sign, digits, and a value that an `int` holds.
unfoldable pub atoi : Bytes → Option ℤ
unfolding digits
atoi [] = none
atoi (c ∷ cs) =
    let positive : Option ℤ = elim (digits (if c == b'+' then cs else c ∷ cs)) [
      | none ↦ none
      | some n ↦ (if ltb n (2 ^ 63) then some (pos n) else none)
    ] in
    let negative : Option ℤ = elim (digits cs) [
      | none ↦ none
      | some n ↦
          (if n == 0 then some (pos 0) else if leb n (2 ^ 63) then some (negsuc (n - 1)) else none)
    ] in
    if c == b'-' then negative else positive
