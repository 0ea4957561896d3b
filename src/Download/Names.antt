-- ===== src/Download/Names.antt =====
-- download/download.go: `segmentBaseFileName` and the two files of a segment, within the segment directory.
-- `show` is what fmt makes of a number with `%d`.
use ytarchive_raw_go.Prelude.{◌≡◌, sym, ◌∙◌, ap, ◌≢◌, ℤ, ◌∷◌, ◌++◌, some}
use mathlib.Core.List.{append_assoc, append_cancel_left, tail-eq_of_cons-eq}
use ytarchive_raw_go.Prelude.Text.{Bytes, codes, occurrences}
use ytarchive_raw_go.Args.Lists.{cut, cut-append}

unfoldable pub segment_base_file_name : (ℤ → Bytes) → Bytes → ℤ → ℤ → Bytes
segment_base_file_name show id itag segment =
    codes "segment-" ++ (id ++ (b'_' ∷ (show itag ++ (b'.' ∷ show segment))))

unfoldable pub incomplete_name : (ℤ → Bytes) → Bytes → ℤ → ℤ → Bytes
unfolding segment_base_file_name
incomplete_name show id itag segment =
    segment_base_file_name show id itag segment ++ codes ".incomplete"

unfoldable pub done_name : (ℤ → Bytes) → Bytes → ℤ → ℤ → Bytes
unfolding segment_base_file_name
done_name show id itag segment = segment_base_file_name show id itag segment ++ codes ".done"

cut_apart :
    (a b c d : Bytes)
    → occurrences b'.' a ≡ 0
    → occurrences b'.' b ≡ 0
    → a ++ b'.' ∷ c ≡ b ++ b'.' ∷ d
    → (a ≡ b) × (c ≡ d)
cut_apart a b c d ha hb e =
    let same : some (a, c) ≡ some (b, d) =
      sym (cut-append b'.' a c ha) ∙ (ap (cut b'.') e ∙ cut-append b'.' b d hb) in
    let both : ◌≡◌ {A = Bytes × Bytes} (a, c) (b, d) = cc same in
    (ap (λ p. p.0) both, ap (λ p. p.1) both)

-- A number, and then the suffix of a file.
suffix_apart :
    (show : ℤ → Bytes) (i s j t : ℤ) (x y : Bytes)
    → ((n : ℤ) → occurrences b'.' (show n) ≡ 0)
    → ((m n : ℤ) → show m ≡ show n → m ≡ n)
    → show i ++ b'.' ∷ (show s ++ b'.' ∷ x) ≡ show j ++ b'.' ∷ (show t ++ b'.' ∷ y)
    → (i ≡ j) × (s ≡ t) × (x ≡ y)
suffix_apart show i s j t x y dotless injective e =
    let (first, rest) =
      cut_apart (show i) (show j) (show s ++ b'.' ∷ x) (show t ++ b'.' ∷ y) (dotless i) (dotless j)
        e in
    let (second, ends) = cut_apart (show s) (show t) x y (dotless s) (dotless t) rest in
    (injective i j first, injective s t second, ends)

-- The name of a file, up to its prefix.
after_prefix :
    (show : ℤ → Bytes) (id : Bytes) (i s : ℤ) (x : Bytes)
    → segment_base_file_name show id i s ++ b'.' ∷ x
      ≡ codes "segment-" ++ (id ++ (b'_' ∷ (show i ++ (b'.' ∷ (show s ++ b'.' ∷ x)))))
unfolding segment_base_file_name
after_prefix show id i s x = simp append_assoc

-- The name of a file decides the format and the number of its segment, and its suffix.
names_of_one_video :
    (show : ℤ → Bytes) (id : Bytes) (i s j t : ℤ) (x y : Bytes)
    → ((n : ℤ) → occurrences b'.' (show n) ≡ 0)
    → ((m n : ℤ) → show m ≡ show n → m ≡ n)
    → segment_base_file_name show id i s ++ b'.' ∷ x
      ≡ segment_base_file_name show id j t ++ b'.' ∷ y
    → (i ≡ j) × (s ≡ t) × (x ≡ y)
names_of_one_video show id i s j t x y dotless injective e =
    let prefixed = sym (after_prefix show id i s x) ∙ (e ∙ after_prefix show id j t y) in
    let rest = λ (k n : ℤ) (z : Bytes). b'_' ∷ (show k ++ (b'.' ∷ (show n ++ b'.' ∷ z))) in
    let named =
      append_cancel_left (codes "segment-") (id ++ rest i s x) (id ++ rest j t y) prefixed in
    let numbered = append_cancel_left id (rest i s x) (rest j t y) named in
    suffix_apart show i s j t x y dotless injective (tail-eq_of_cons-eq numbered)

codes-done : codes "done" ≢ codes "incomplete"
codes-done e = cc

-- If the texts of numbers have no dot and differ, two files of one video have one name only if they are
-- of one format, one segment and one kind.
pub names_apart :
    (show : ℤ → Bytes) (id : Bytes) (i s j t : ℤ)
    → ((n : ℤ) → occurrences b'.' (show n) ≡ 0)
    → ((m n : ℤ) → show m ≡ show n → m ≡ n)
    → (done_name show id i s ≡ done_name show id j t → (i ≡ j) × (s ≡ t))
      × (incomplete_name show id i s ≡ incomplete_name show id j t → (i ≡ j) × (s ≡ t))
      × (done_name show id i s ≢ incomplete_name show id j t)
unfolding done_name incomplete_name
names_apart show id i s j t dotless injective =
    let apart = λ (x y : Bytes). names_of_one_video show id i s j t x y dotless injective in
    let done = codes "done" in
    let incomplete = codes "incomplete" in
    (
      λ e. let (p, q, _) = apart done done e in (p, q),
      λ e. let (p, q, _) = apart incomplete incomplete e in (p, q),
      λ e. let (_, _, r) = apart done incomplete e in absurd (codes-done r),
    )
