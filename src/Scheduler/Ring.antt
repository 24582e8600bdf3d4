-- ===== src/Scheduler/Ring.antt =====
-- Linked lists of tasks: segments of `next` pointers and the run queue as a ring.
use kernel_study.Base.{
  ℕ, zero, suc, ◌<◌, ◌≡◌, true, false, ◌⊎◌, inr, List, [], ◌∷◌, ◌++◌, some, arith, ◌==◌,
  if◌then◌else◌, length, last_of, update,
}
pub use kernel_study.Base.Members.{
  has, Distinct, has-append, has-last_of, Distinct-snoc, Distinct-append, Distinct-parts,
  Distinct-rotate,
}
use kernel_study.Scheduler.{Ptr, TaskStatus, Task, Sched, set_status, set_next}
use kernel_study.Scheduler.Calls.{find_before}

-- The `next` pointers of the tasks.
abbrev pub links : Sched → Ptr → Ptr
links s a = (s.tasks a).next

-- From `p` the `next` pointers lead through the tasks `xs` to `q`.
abbrev pub Seg : (Ptr → Ptr) → Ptr → List Ptr → Ptr → Type 0
Seg next p [] q = p ≡ q
Seg next p (x ∷ xs) q = (p ≡ x) × Seg next (next x) xs q

-- A segment depends on the `next` pointers of its own tasks alone.
pub Seg-frame :
    (f g : Ptr → Ptr) (p : Ptr) (xs : List Ptr) (q : Ptr)
    → ((a : Ptr) → has a xs ≡ true → g a ≡ f a)
    → Seg f p xs q
    → Seg g p xs q
Seg-frame f g p [] q same s = s
Seg-frame f g p (x ∷ xs) q same s =
    (s.0, rw (same x (ground arith)) (Seg-frame f g (f x) xs q (λ a i. same a (ground arith)) s.1))

pub Seg-append :
    (next : Ptr → Ptr) (p : Ptr) (xs : List Ptr) (q : Ptr) (ys : List Ptr) (r : Ptr)
    → Seg next p xs q
    → Seg next q ys r
    → Seg next p (xs ++ ys) r
Seg-append next p [] q ys r s t = rw s t
Seg-append next p (x ∷ xs) q ys r s t = (s.0, Seg-append next (next x) xs q ys r s.1 t)

-- The two parts of a segment, and where they meet.
pub Seg-split :
    (next : Ptr → Ptr) (p : Ptr) (xs : List Ptr) (y : Ptr) (ys : List Ptr) (r : Ptr)
    → Seg next p (xs ++ (y ∷ ys)) r
    → Seg next p xs y × Seg next (next y) ys r
Seg-split next p [] y ys r s = (s.0, s.1)
Seg-split next p (x ∷ xs) y ys r s =
    let rest = Seg-split next (next x) xs y ys r s.1 in ((s.0, rest.0), rest.1)

-- The successor of a task in a segment is in the segment, or is its end.
pub Seg-next :
    (next : Ptr → Ptr) (p : Ptr) (xs : List Ptr) (q a : Ptr)
    → Seg next p xs q
    → has a xs ≡ true
    → (has (next a) xs ≡ true) ⊎ (next a ≡ q)
Seg-next next p [] q a s h = cc
Seg-next next p (x ∷ []) q a s h = inr (ground arith)
Seg-next next p (x ∷ y ∷ ys) q a s h = ground (arith, Seg-next next (next x) (y ∷ ys) q a s.1)

-- The walk to the last task before `target`.
pub find_before-last :
    (tasks : Ptr → Task) (target : Ptr) (fuel : ℕ) (p : Ptr) (xs : List Ptr)
    → Seg (λ a. (tasks a).next) (tasks p).next xs target
    → has target xs ≡ false
    → length xs < fuel
    → find_before tasks target fuel p ≡ some (last_of p xs)
unfolding find_before
find_before-last tasks target zero p xs s out h = absurd (omega arith)
find_before-last tasks target (suc fuel) p [] s out h = ground arith
find_before-last tasks target (suc fuel) p (x ∷ xs) s out h =
    ground (arith, find_before-last tasks target fuel x xs s.1)

-- Pointing the last task of a segment at `r` moves the segment's end there.
pub Seg-redirect :
    (f g : Ptr → Ptr) (p : Ptr) (xs : List Ptr) (q r : Ptr)
    → ((a : Ptr) → g a ≡ (if last_of p xs == a then r else f a))
    → Seg f (f p) xs q
    → Distinct (p ∷ xs)
    → Seg g (g p) xs r
Seg-redirect f g p [] q r same s d = ground (arith, same p)
Seg-redirect f g p (x ∷ xs) q r same s d =
    (ground (arith, same p, has-last_of x xs), Seg-redirect f g x xs q r same s.1 d.1)

pub links-set_next :
    (p q : Ptr) (s : Sched) (a : Ptr) → links (set_next p q s) a ≡ (if p == a then q else links s a)
unfolding set_next update
links-set_next p q s a = ground arith

pub links-set_status :
    (p : Ptr) (st : TaskStatus) (s : Sched) (a : Ptr) → links (set_status p st s) a ≡ links s a
unfolding set_status update
links-set_status p st s a = ground arith
