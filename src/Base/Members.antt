-- ===== src/Base/Members.antt =====
-- Membership of numbers in a list, as a test, and lists that name no number twice.
use Prim.Native.Nat.{ℕ}
use mathlib.Core.Path.{◌≡◌, refl}
use mathlib.Core.Bool.{Bool, true, false, ◌||◌}
use mathlib.Core.List.{List, [], ◌∷◌, ◌++◌}
use native.Mathlib.Omega.{arith}
use kernel_study.Base.Tests.{◌==◌}
use kernel_study.Base.Lists.{last_of}

abbrev pub has : ℕ → List ℕ → Bool
has a [] = false
has a (x ∷ xs) = (a == x) || has a xs

abbrev pub Distinct : List ℕ → Type 0
Distinct [] = Unit {0}
Distinct (x ∷ xs) = (has x xs ≡ false) × Distinct xs

pub has-append : (a : ℕ) (xs ys : List ℕ) → has a (xs ++ ys) ≡ (has a xs || has a ys)
has-append a [] ys = refl
has-append a (x ∷ xs) ys = ground (arith, has-append a xs ys)

pub has-last_of : (x : ℕ) (xs : List ℕ) → has (last_of x xs) (x ∷ xs) ≡ true
has-last_of x [] = ground arith
has-last_of x (y ∷ ys) = ground (arith, has-last_of y ys)

pub Distinct-snoc :
    (xs : List ℕ) (y : ℕ) → Distinct xs → has y xs ≡ false → Distinct (xs ++ (y ∷ []))
Distinct-snoc [] y d h = (refl, tt)
Distinct-snoc (x ∷ xs) y d h =
    (ground (arith, has-append x xs (y ∷ [])), Distinct-snoc xs y d.1 (ground arith))

pub Distinct-append :
    (xs ys : List ℕ)
    → Distinct xs
    → Distinct ys
    → ((a : ℕ) → has a xs ≡ true → has a ys ≡ false)
    → Distinct (xs ++ ys)
Distinct-append [] ys d e apart = e
Distinct-append (x ∷ xs) ys d e apart = (
  rw has-append (ground (arith, apart x)),
  Distinct-append xs ys d.1 e (λ a i. apart a (ground arith)),
)

pub Distinct-parts :
    (xs ys : List ℕ)
    → Distinct (xs ++ ys)
    → Distinct xs × Distinct ys × ((a : ℕ) → has a ys ≡ true → has a xs ≡ false)
Distinct-parts [] ys d = (tt, d, λ a i. refl)
Distinct-parts (x ∷ xs) ys d =
    let rest = Distinct-parts xs ys d.1 in
    let out : (has x xs || has x ys) ≡ false = rw has-append at d.0 in
    ((ground arith, rest.0), rest.1, λ a i. ground (arith, rest.2 a i))

pub Distinct-rotate : (xs ys : List ℕ) → Distinct (xs ++ ys) → Distinct (ys ++ xs)
Distinct-rotate xs ys d =
    let parts = Distinct-parts xs ys d in Distinct-append ys xs parts.1 parts.0 parts.2
