-- ===== src/Common/Numbers.antt =====
-- Lists of numbers without duplicates, and the pigeonhole principle for them.
use ai_tgs.Common.Tests.{
  ℕ, zero, suc, ◌+◌, ◌≤◌, ◌≡◌, ◌≢◌, refl, Bool, true, false, ◌&&◌, ◌||◌, not, List, [], ◌∷◌, arith,
  leb, ◌==◌, Bool-cases, inl, inr,
}
use ai_tgs.Common.Table.{length, any, all, select, count}

abbrev pub is_one_of : List ℕ → ℕ → Bool
is_one_of ids i = any (λ j. j == i) ids

abbrev pub has_duplicates : List ℕ → Bool
has_duplicates [] = false
has_duplicates (i ∷ ids) = is_one_of ids i || has_duplicates ids

-- The test of `order < 1 || order > n`, negated.
abbrev pub in_range : ℕ → ℕ → Bool
in_range n i = leb 1 i && leb i n

abbrev pub occurs : ℕ → List ℕ → ℕ
occurs i ns = count (λ j. j == i) ns

abbrev differs : ℕ → ℕ → Bool
differs i j = not (j == i)

occurs-absent : (i : ℕ) (ns : List ℕ) → is_one_of ns i ≡ false → occurs i ns ≡ 0
occurs-absent i [] h = refl
occurs-absent i (j ∷ ns) h = ground (arith, occurs-absent i ns)

is_one_of-occurs : (i : ℕ) (ns : List ℕ) → occurs i ns ≡ 0 → is_one_of ns i ≡ false
is_one_of-occurs i [] h = refl
is_one_of-occurs i (j ∷ ns) h = ground (arith, is_one_of-occurs i ns)

occurs-le_one : (i : ℕ) (ns : List ℕ) → has_duplicates ns ≡ false → occurs i ns ≤ 1
occurs-le_one i [] h = omega arith
occurs-le_one i (j ∷ ns) h = elim (Bool-cases (j == i)) [
  | inl hit ↦
      let same : j ≡ i = ground arith in
      let gone : is_one_of ns i ≡ false = rw (← same) (ground (arith, h)) in
      ground (arith, occurs-absent i ns gone)
  | inr miss ↦ ground (arith, h, occurs-le_one i ns)
]

length-select-cons :
    (i : ℕ) (ns : List ℕ) → length (select (differs i) ns) + occurs i ns ≡ length ns
length-select-cons i [] = refl
length-select-cons i (j ∷ ns) = ground (arith, length-select-cons i ns)

occurs-select_le : (i k : ℕ) (ns : List ℕ) → occurs k (select (differs i) ns) ≤ occurs k ns
occurs-select_le i k [] = omega arith
occurs-select_le i k (j ∷ ns) = ground (arith, occurs-select_le i k ns)

has_duplicates-select :
    (i : ℕ) (ns : List ℕ)
    → has_duplicates ns ≡ false
    → has_duplicates (select (differs i) ns) ≡ false
has_duplicates-select i [] h = refl
has_duplicates-select i (j ∷ ns) h = elim (Bool-cases (differs i j)) [
  | inl kept ↦
      let absent : is_one_of ns j ≡ false = ground (arith, h) in
      let none_left = occurs-select_le i j ns in
      let zero_of = occurs-absent j ns absent in
      let gone = is_one_of-occurs j (select (differs i) ns) (omega (arith, none_left, zero_of)) in
      let rest = has_duplicates-select i ns (ground (arith, h)) in rw (kept, gone) rest
  | inr dropped ↦ rw dropped (has_duplicates-select i ns (ground (arith, h)))
]

all-in_range-select :
    (n : ℕ) (ns : List ℕ)
    → all (in_range (suc n)) ns ≡ true
    → all (in_range n) (select (differs (suc n)) ns) ≡ true
all-in_range-select n [] h = refl
all-in_range-select n (j ∷ ns) h = ground (arith, all-in_range-select n ns)

all-in_range_absent :
    (n : ℕ) (ns : List ℕ)
    → all (in_range (suc n)) ns ≡ true
    → occurs (suc n) ns ≡ 0
    → all (in_range n) ns ≡ true
all-in_range_absent n [] h k = refl
all-in_range_absent n (j ∷ ns) h k = ground (arith, all-in_range_absent n ns)

-- At most `n` different numbers from 1 to `n`,
length-le_range :
    (n : ℕ) (ns : List ℕ) → has_duplicates ns ≡ false → all (in_range n) ns ≡ true → length ns ≤ n
length-le_range zero [] d r = omega arith
length-le_range zero (j ∷ ns) d r = ground arith
length-le_range (suc n) ns d r =
    let rest = select (differs (suc n)) ns in
    let ih =
      length-le_range n rest (has_duplicates-select (suc n) ns d) (all-in_range-select n ns r) in
    omega (arith, ih, length-select-cons (suc n) ns, occurs-le_one (suc n) ns d)

-- and fewer if one of these is absent.
length-lt_range :
    (n p : ℕ) (ns : List ℕ)
    → has_duplicates ns ≡ false
    → all (in_range n) ns ≡ true
    → in_range n p ≡ true
    → occurs p ns ≡ 0
    → suc (length ns) ≤ n
length-lt_range zero p ns d r i o = ground arith
length-lt_range (suc n) p ns d r i o = elim (Bool-cases (p == suc n)) [
  | inl hit ↦
      let same : p ≡ suc n = ground arith in
      let gone : occurs (suc n) ns ≡ 0 = rw (← same) o in
      omega (arith, length-le_range n ns d (all-in_range_absent n ns r gone))
  | inr miss ↦
      let rest = select (differs (suc n)) ns in
      let still : occurs p rest ≡ 0 = omega (arith, occurs-select_le (suc n) p ns, o) in
      let ih =
        length-lt_range n p rest (has_duplicates-select (suc n) ns d) (all-in_range-select n ns r)
          (ground (arith, i, miss)) still in
      omega (arith, ih, length-select-cons (suc n) ns, occurs-le_one (suc n) ns d)
]

-- So `n` different numbers from 1 to `n` are each of these once.
pub occurs-once :
    (n p : ℕ) (ns : List ℕ)
    → length ns ≡ n
    → has_duplicates ns ≡ false
    → all (in_range n) ns ≡ true
    → in_range n p ≡ true
    → occurs p ns ≡ 1
occurs-once n p ns l d r i = elim (Bool-cases (occurs p ns == 0)) [
  | inl absent ↦
      let o : occurs p ns ≡ 0 = ground arith in
      let few = length-lt_range n p ns d r i o in absurd (omega (arith, few, l))
  | inr here ↦
      let some_of : occurs p ns ≢ 0 = ground arith in omega (arith, some_of, occurs-le_one p ns d)
]
