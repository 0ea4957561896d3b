-- ===== src/Log/Itoa.antt =====
-- log/fmt.go: `itoa`, which writes a number to the end of a buffer of 20 bytes.
use mathlib.Core.List.{append-nil, append_assoc}
use native.Mathlib.Nat.{pow-suc}
use ytarchive_raw_go.Prelude.{
  ℕ, zero, suc, ◌+◌, ◌-◌, ◌*◌, ◌/◌, ◌^◌, ◌≤◌, ◌<◌, ◌≡◌, refl, sym, ◌∙◌, ap, ℤ, pos, ltb_ℤ, ◌-ℤ◌,
  -ℤ_parts, pos_part, true, ◌||◌, List, [], ◌∷◌, ◌++◌, Option, none, some, arith, leb,
  if◌then◌else◌, length, length-append, Bool-cases, inl, inr,
}

-- `byte('0' + d)`
abbrev pub digit : ℕ → ℕ
digit d = b'0' + d

-- The buffer is filled from its end: `out` is the text from `bp + 1` on. Writing at an index below 0
-- is the panic, `none`; fuel is the room that is left, `bp + 1`.
unfoldable pub itoa_loop : ℕ → ℕ → ℤ → List ℕ → Option (List ℕ)
itoa_loop zero i wid out = none
itoa_loop (suc room) i wid out =
    let rest = itoa_loop room (i / 10) (wid -ℤ pos 1) (digit (i - i / 10 * 10) ∷ out) in
    if leb 10 i || ltb_ℤ (pos 1) wid then rest else some (digit i ∷ out)

abbrev pub buffer_size : ℕ
buffer_size = 20

-- `itoa`, for a number that is not negative: what is appended to `buf`.
unfoldable pub itoa : List ℕ → ℕ → ℤ → Option (List ℕ)
unfolding itoa_loop
itoa buf i wid = elim (itoa_loop buffer_size i wid []) [
  | none ↦ none
  | some text ↦ some (buf ++ text)
]

-- The number that decimal digits stand for, after the number `acc`.
abbrev pub value : ℕ → List ℕ → ℕ
value acc [] = acc
value acc (c ∷ cs) = value (acc * 10 + (c - b'0')) cs

abbrev pub AllDigits : List ℕ → Type 0
AllDigits [] = Unit {0}
AllDigits (c ∷ cs) = (b'0' ≤ c) × (c ≤ b'9') × AllDigits cs

value-append : (acc c : ℕ) (cs : List ℕ) → value acc (cs ++ c ∷ []) ≡ value acc cs * 10 + (c - b'0')
value-append acc c [] = refl
value-append acc c (x ∷ cs) = value-append (acc * 10 + (x - b'0')) c cs

AllDigits-append :
    (c : ℕ) (cs : List ℕ) → b'0' ≤ c → c ≤ b'9' → AllDigits cs → AllDigits (cs ++ c ∷ [])
AllDigits-append c [] lo hi v = (lo, hi, tt)
AllDigits-append c (x ∷ cs) lo hi v = (v.0, v.1, AllDigits-append c cs lo hi v.2)

-- A text for `i` of at least `wid` digits and at most `n`.
pub record Writes (i : ℕ) (wid : ℤ) (n : ℕ) (text : List ℕ) : Type 0 where
  pub number : value 0 text ≡ i
  pub digits : AllDigits text
  pub padded : pos_part wid ≤ length text
  pub short : length text ≤ n
  pub some_digit : 0 < length text

quotient : (i n : ℕ) → i < 10 ^ suc n → i / 10 < 10 ^ n
quotient i n h = let p : i < 10 ^ n * 10 = rw (← pow-suc 10 n) h in omega (arith, p)

room_left :
    (n i : ℕ) (wid : ℤ)
    → i < 10 ^ suc n
    → pos_part wid ≤ suc n
    → (leb 10 i || ltb_ℤ (pos 1) wid) ≡ true
    → 0 < n
room_left zero i wid small fits more = absurd (ground arith)
room_left (suc n) i wid small fits more = omega arith

itoa_loop_lem :
    (room n i : ℕ) (wid : ℤ) (out : List ℕ)
    → 0 < n
    → n ≤ room
    → i < 10 ^ n
    → pos_part wid ≤ n
    → (text : List ℕ) × (itoa_loop room i wid out ≡ some (text ++ out)) × Writes i wid n text
unfolding itoa_loop
itoa_loop_lem zero n i wid out h le small fits = absurd (omega arith)
itoa_loop_lem (suc room) zero i wid out h le small fits = absurd (omega arith)
itoa_loop_lem (suc room) (suc n) i wid out h le small fits =
    elim (Bool-cases (leb 10 i || ltb_ℤ (pos 1) wid)) [
      | inr stop ↦ (digit i ∷ [], rw stop, ground (arith, stop))
      | inl more ↦
          let (text, e, w) =
            itoa_loop_lem room n (i / 10) (wid -ℤ pos 1) (digit (i - i / 10 * 10) ∷ out)
              (room_left n i wid small fits more) (omega arith) (quotient i n small)
              (ground (arith, -ℤ_parts wid (pos 1), more)) in
          (
            text ++ digit (i - i / 10 * 10) ∷ [],
            rw more (e ∙ ap some (sym (append_assoc text (digit (i - i / 10 * 10) ∷ []) out))),
            record {
              number = omega (arith, value-append 0 (digit (i - i / 10 * 10)) text, w.number);
              digits = AllDigits-append _ text (omega arith) (omega arith) w.digits;
              padded = ground (
                arith,
                -ℤ_parts wid (pos 1),
                w.padded,
                w.some_digit,
                length-append text (digit (i - i / 10 * 10) ∷ []),
              );
              short = omega (arith, w.short, length-append text (digit (i - i / 10 * 10) ∷ []));
              some_digit = omega (arith, length-append text (digit (i - i / 10 * 10) ∷ []));
            },
          )
    ]

-- `itoa` appends to the buffer the decimal text of a number: digits that stand for the number, at least
-- `wid` of them and at least one, and no more than any `n` digits that suffice for both. It does not run
-- out of its 20 bytes for a number below 10^20, so for none that an `int` holds, and a width up to 20.
pub itoa_lem :
    (buf : List ℕ) (n i : ℕ) (wid : ℤ)
    → 0 < n
    → n ≤ buffer_size
    → i < 10 ^ n
    → pos_part wid ≤ n
    → (text : List ℕ) × (itoa buf i wid ≡ some (buf ++ text)) × Writes i wid n text
unfolding itoa
itoa_lem buf n i wid h le small fits =
    let (text, e, w) = itoa_loop_lem buffer_size n i wid [] h le small fits in
    (text, rw (e, itoa) (ap (λ t. some (buf ++ t)) (append-nil text)), w)
