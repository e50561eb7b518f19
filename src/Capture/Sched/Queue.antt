-- ===== src/Capture/Sched/Queue.antt =====
-- The ready queue of crates/recorder/src/capture/sched.rs: membership, and repeated threads.
use mirrorscope.Prelude.{ℕ, ◌≡◌, refl, arith, ◌==◌, if◌then◌else◌, true, false, List, [], ◌∷◌, ◌++◌}
use mirrorscope.Capture.Sched.{contains, retain_ne}

abbrev pub Distinct : List ℕ → Type 0
Distinct [] = Unit
Distinct (x ∷ xs) = (contains xs x ≡ false) × Distinct xs

pub contains-append :
    (xs : List ℕ) (p q : ℕ) → contains (xs ++ p ∷ []) q ≡ (if q == p then true else contains xs q)
contains-append [] p q = refl
contains-append (x ∷ xs) p q = ground (arith, contains-append xs p q)

pub contains-retain_ne :
    (p q : ℕ) (xs : List ℕ)
    → contains (retain_ne p xs) q ≡ (if q == p then false else contains xs q)
contains-retain_ne p q [] = ground arith
contains-retain_ne p q (x ∷ xs) = ground (arith, contains-retain_ne p q xs)

pub Distinct-append :
    (xs : List ℕ) (p : ℕ) → contains xs p ≡ false → Distinct xs → Distinct (xs ++ p ∷ [])
Distinct-append [] p h d = (refl, tt)
Distinct-append (x ∷ xs) p h d =
    (ground (arith, contains-append xs p x, d.0), Distinct-append xs p (ground arith) d.1)

pub Distinct-retain_ne : (p : ℕ) (xs : List ℕ) → Distinct xs → Distinct (retain_ne p xs)
Distinct-retain_ne p [] d = tt
Distinct-retain_ne p (x ∷ xs) d =
    ground (arith, Distinct-retain_ne p xs d.1, contains-retain_ne p x xs, d.0)
