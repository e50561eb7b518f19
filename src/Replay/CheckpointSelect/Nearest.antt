-- ===== src/Replay/CheckpointSelect/Nearest.antt =====
-- `nearest_at_or_before` of crates/replay/src/checkpoint_select.rs, and what it finds.
use mirrorscope.Prelude.{
  ℕ, Bool-cases, inl, inr, leb→le, zero, suc, ◌+◌, ◌≤◌, ◌<◌, ◌≡◌, refl, arith, leb, if◌then◌else◌,
  Bool, Option, none, some, List, [], ◌∷◌, ◌++◌, get_elem?,
}
use mathlib.Core.List.{reverse, reverse-cons}
use mathlib.Core.Option

-- `iter().enumerate()`, from an index on.
abbrev enumerate {ℓ} : {A : Type ℓ} → ℕ → List A → List (ℕ × A)
enumerate i [] = []
enumerate i (x ∷ xs) = (i, x) ∷ enumerate (suc i) xs

-- `find(…)`
abbrev find {ℓ} : {A : Type ℓ} → (A → Bool) → List A → Option A
find p [] = none
find p (x ∷ xs) = let rest = find p xs in if p x then some x else rest

unfoldable pub nearest_at_or_before : List ℕ → ℕ → Option ℕ
nearest_at_or_before seqs target =
    Option.map (λ p. p.0) (find (λ p. leb p.1 target) (reverse (enumerate 0 seqs)))

-- The last element that satisfies the test.
find_last : ℕ → List ℕ → ℕ → Option ℕ
find_last i [] target = none
find_last i (s ∷ ss) target = elim (find_last (suc i) ss target) [
  | none ↦ if leb s target then some i else none
  | some j ↦ some j
]

find-append {ℓ} :
    {A : Type ℓ} (p : A → Bool) (xs ys : List A)
    → find p (xs ++ ys) ≡ elim (find p xs) [ none ↦ find p ys | some x ↦ some x ]
find-append p [] ys = refl
find-append p (x ∷ xs) ys = ground (arith, find-append p xs ys)

find-reverse :
    (i : ℕ) (seqs : List ℕ) (target : ℕ)
    → Option.map (λ p. p.0) (find (λ p. leb p.1 target) (reverse (enumerate i seqs)))
      ≡ find_last i seqs target
unfolding find_last
find-reverse i [] target = refl
find-reverse i (s ∷ ss) target =
    rw
      (
        reverse-cons (i, s) (enumerate (suc i) ss),
        find-append (λ (p : ℕ × ℕ). leb p.1 target) (reverse (enumerate (suc i) ss)) ((i, s) ∷ []),
      )
      (rw (← find-reverse (suc i) ss target) (ground arith))

-- Where the search from index `i` on leaves off.
abbrev IsNearest : ℕ → List ℕ → ℕ → Option ℕ → Type 0
IsNearest i seqs target none = (j s : ℕ) → get_elem? seqs j ≡ some s → target < s
IsNearest i seqs target (some k) =
    (n s : ℕ) × (k ≡ i + n)
    × (get_elem? seqs n ≡ some s)
    × (s ≤ target)
    × ((j s' : ℕ) → n < j → get_elem? seqs j ≡ some s' → target < s')

find_last_lem :
    (i : ℕ) (seqs : List ℕ) (target : ℕ) → IsNearest i seqs target (find_last i seqs target)
unfolding find_last
find_last_lem i [] target = λ j s h. cc
find_last_lem i (s ∷ ss) target =
    extend (find_last (suc i) ss target) (find_last_lem (suc i) ss target)
  where
    extend :
        (r : Option ℕ)
        → IsNearest (suc i) ss target r
        → IsNearest i
            (s ∷ ss)
            target
            (elim r [ none ↦ if leb s target then some i else none | some j ↦ some j ])
    extend none h = elim (Bool-cases (leb s target)) [
      | inl here ↦ rw here (
        0,
        s,
        omega arith,
        refl,
        leb→le s target here,
        elim [ zero ↦ λ s' lt e. absurd (omega arith) | suc j ↦ λ s' lt e. h j s' e ],
      )
      | inr past ↦ rw past (elim [ zero ↦ λ s' e. ground arith | suc j ↦ λ s' e. h j s' e ])
    ]
    extend (some k) (n, s', e, at, le, later) = (
      suc n,
      s',
      omega arith,
      at,
      le,
      elim [
        | zero ↦ λ s'' lt e. absurd (omega arith)
        | suc j ↦ λ s'' lt e. later j s'' (omega arith) e
      ],
    )

-- The answer of the search, for the sequence numbers `seqs` of the checkpoints.
abbrev pub IsNearestAt : List ℕ → ℕ → Option ℕ → Type 0
IsNearestAt seqs target none = (j s : ℕ) → get_elem? seqs j ≡ some s → target < s
IsNearestAt seqs target (some k) =
    (s : ℕ) × (get_elem? seqs k ≡ some s)
    × (s ≤ target)
    × ((j s' : ℕ) → k < j → get_elem? seqs j ≡ some s' → target < s')

-- `nearest_at_or_before` answers the last index whose sequence number is at most the target, and
-- `None` only if every sequence number lies after the target. (So for ascending numbers it is the
-- greatest one at or before the target.)
pub nearest_at_or_before_lem :
    (seqs : List ℕ) (target : ℕ) → IsNearestAt seqs target (nearest_at_or_before seqs target)
unfolding nearest_at_or_before
nearest_at_or_before_lem seqs target =
    rw (find-reverse 0 seqs target) (shift (find_last 0 seqs target) (find_last_lem 0 seqs target))
  where
    shift : (r : Option ℕ) → IsNearest 0 seqs target r → IsNearestAt seqs target r
    shift none h = h
    shift (some k) (n, s, e, at, le, later) =
        let same : k ≡ n = omega arith in rw same (s, at, le, later)
