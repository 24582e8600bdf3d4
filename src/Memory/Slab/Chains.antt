-- ===== src/Memory/Slab/Chains.antt =====
-- Doubly linked lists of slabs, and the three ways in which kernel/memory.c changes them.
use mathlib.Core.Path.{subst}
use kernel_study.Base.{
  ◌≡◌, ◌≢◌, refl, true, false, ◌⊎◌, inl, inr, List, [], ◌∷◌, ◌++◌, arith, ◌==◌, if◌then◌else◌,
  update, ◌∙◌,
}
use kernel_study.Base.Members.{has, Distinct, has-append, Distinct-parts}
use kernel_study.Memory.Slab.{Ptr, null, Slab, set_next, set_prev, unlink, push_front, pop_front}

-- From `p` the slabs `xs` are linked both ways, and `before` stands before the first.
abbrev pub Chain : (Ptr → Slab) → Ptr → Ptr → List Ptr → Type 0
Chain f before p [] = p ≡ null
Chain f before p (x ∷ xs) = (p ≡ x) × (x ≢ null) × ((f x).prev ≡ before) × Chain f x (f x).next xs

abbrev pub SameLinks : (Ptr → Slab) → (Ptr → Slab) → Ptr → Type 0
SameLinks f g a = ((g a).next ≡ (f a).next) × ((g a).prev ≡ (f a).prev)

pub Chain-frame :
    (f g : Ptr → Slab) (before p : Ptr) (xs : List Ptr)
    → ((a : Ptr) → has a xs ≡ true → SameLinks f g a)
    → Chain f before p xs
    → Chain g before p xs
Chain-frame f g before p [] same c = c
Chain-frame f g before p (x ∷ xs) same c =
    let here = same x (ground arith) in
    (
      c.0,
      c.1,
      here.1 ∙ c.2,
      rw here.0 (Chain-frame f g x (f x).next xs (λ a i. same a (ground arith)) c.3),
    )

-- No slab of a list is `NULL`.
pub Chain-ne :
    (f : Ptr → Slab) (before p : Ptr) (xs : List Ptr) (a : Ptr)
    → Chain f before p xs
    → has a xs ≡ true
    → a ≢ null
Chain-ne f before p [] a c i = cc
Chain-ne f before p (x ∷ xs) a c i = ground (arith, c.1, Chain-ne f x (f x).next xs a c.3)

pub push_front-Chain :
    (f : Ptr → Slab) (slab head : Ptr) (xs : List Ptr)
    → Chain f null head xs
    → Distinct xs
    → has slab xs ≡ false
    → slab ≢ null
    → Chain (push_front slab head f) null slab (slab ∷ xs)
unfolding push_front set_next set_prev update
push_front-Chain f slab head [] c d out ne = (refl, ne, ground arith, ground arith)
push_front-Chain f slab head (x ∷ xs) c d out ne =
    let g = push_front slab head f in
    let rest = Chain-frame f g x (f x).next xs (λ a i. ground (arith, c.0, d.0, i, out)) c.3 in
    let next : (g x).next ≡ (f x).next = ground (arith, out, c.0) in
    (
      refl,
      ne,
      ground (arith, out),
      (ground (arith, c.0), c.1, ground (arith, out, c.0, c.1), rw next rest),
    )

pub push_front-SameLinks :
    (f : Ptr → Slab) (slab head : Ptr) (xs : List Ptr) (a : Ptr)
    → Chain f null head xs
    → has a (slab ∷ xs) ≡ false
    → SameLinks f (push_front slab head f) a
unfolding push_front set_next set_prev update
push_front-SameLinks f slab head [] a c out = ground arith
push_front-SameLinks f slab head (x ∷ xs) a c out = ground arith

pub pop_front-Chain :
    (f : Ptr → Slab) (slab : Ptr) (xs : List Ptr)
    → Chain f null slab (slab ∷ xs)
    → Distinct (slab ∷ xs)
    → Chain (pop_front slab f) null (pop_front slab f slab).next xs
unfolding pop_front set_prev update
pop_front-Chain f slab [] c d = ground (arith, c.3)
pop_front-Chain f slab (x ∷ xs) c d =
    let g = pop_front slab f in
    let next : (g slab).next ≡ x = ground (arith, c.3.0, d.0) in
    let after : (g x).next ≡ (f x).next = ground (arith, c.3.0) in
    let rest = Chain-frame f g x (f x).next xs (λ a i. ground (arith, c.3.0, d.1.0, i)) c.3.3 in
    rw next (refl, c.3.1, ground (arith, c.3.0, c.3.1), rw after rest)

pub pop_front-SameLinks :
    (f : Ptr → Slab) (slab : Ptr) (xs : List Ptr) (a : Ptr)
    → Chain f null slab (slab ∷ xs)
    → has a xs ≡ false
    → SameLinks f (pop_front slab f) a
unfolding pop_front set_prev update
pop_front-SameLinks f slab [] a c out = ground (arith, c.3)
pop_front-SameLinks f slab (x ∷ xs) a c out = ground (arith, c.3.0, out)

-- Where a slab's predecessor in a list is.
pub prev_in-Chain :
    (f : Ptr → Slab) (before p x : Ptr) (xs : List Ptr) (slab : Ptr) (ys : List Ptr)
    → Chain f before p (x ∷ xs ++ (slab ∷ ys))
    → has (f slab).prev (x ∷ xs) ≡ true
prev_in-Chain f before p x [] slab ys c = ground (arith, c.3.2)
prev_in-Chain f before p x (y ∷ xs) slab ys c =
    ground (arith, prev_in-Chain f x (f x).next y xs slab ys c.3)

pub unlink-SameLinks :
    (f : Ptr → Slab) (slab a : Ptr)
    → a ≢ (f slab).prev
    → a ≢ (f slab).next
    → SameLinks f (unlink slab f) a
unfolding unlink set_next set_prev update
unlink-SameLinks f slab a p n = ground (arith, p, n)

pub next_in-Chain :
    (f : Ptr → Slab) (before p : Ptr) (xs : List Ptr) (slab : Ptr) (ys : List Ptr)
    → Chain f before p (xs ++ (slab ∷ ys))
    → ((f slab).next ≡ null) ⊎ (has (f slab).next ys ≡ true)
next_in-Chain f before p [] slab [] c = inl c.3
next_in-Chain f before p [] slab (y ∷ ys) c = inr (ground (arith, c.3.0))
next_in-Chain f before p (x ∷ xs) slab ys c = next_in-Chain f x (f x).next xs slab ys c.3

-- The links after a slab has left, in terms of its neighbours.
module _ (f : Ptr → Slab) (slab : Ptr) (p_other : (f slab).prev ≢ slab)
    (n_other : (f slab).next ≢ slab) where
  pub next_unlinked :
      (a : Ptr)
      → a ≢ null
      → (unlink slab f a).next ≡ (if (f slab).prev == a then (f slab).next else (f a).next)
  unfolding unlink set_next set_prev update
  next_unlinked a ne = ground (arith, p_other, n_other)

  prev_unlinked :
      (a : Ptr)
      → a ≢ null
      → (unlink slab f a).prev ≡ (if (f slab).next == a then (f slab).prev else (f a).prev)
  unfolding unlink set_next set_prev update
  prev_unlinked a ne = ground (arith, p_other, n_other)

  -- What was behind the slab is now behind its predecessor.
  moved_up :
      (ys : List Ptr)
      → Chain f slab (f slab).next ys
      → Distinct ys
      → has (f slab).prev ys ≡ false
      → Chain (unlink slab f) (f slab).prev (f slab).next ys
  moved_up [] c d out = c
  moved_up (y ∷ ys) c d out =
      let n = next_unlinked y c.1 in
      let next : (unlink slab f y).next ≡ (f y).next = ground (arith, n, out) in
      let prev : (unlink slab f y).prev ≡ (f slab).prev =
        ground (arith, prev_unlinked y c.1, c.0) in
      let rest =
        Chain-frame f (unlink slab f) y (f y).next ys
          (λ a i. unlink-SameLinks f slab a (ground (arith, out, i)) (ground (arith, c.0, d.0, i)))
          c.3 in
      (c.0, c.1, prev, rw next rest)

-- Taking a slab out of a list, with the slabs before it at `before`.
pub unlink-Chain :
    (f : Ptr → Slab) (before p : Ptr) (xs : List Ptr) (slab : Ptr) (ys : List Ptr)
    → Chain f before p (xs ++ (slab ∷ ys))
    → Distinct (xs ++ (slab ∷ ys))
    → has before (xs ++ (slab ∷ ys)) ≡ false
    → Chain (unlink slab f) before (if p == slab then (f slab).next else p) (xs ++ ys)
unlink-Chain f before p [] slab ys c d out =
    let at = next_in-Chain f before p [] slab ys c in
    let p_other : (f slab).prev ≢ slab = ground (arith, c.2, out) in
    let n_other : (f slab).next ≢ slab = ground (arith, at, d.0, c.1) in
    let moved = moved_up f slab p_other n_other ys c.3 d.1 (ground (arith, c.2, out)) in
    let head : (if p == slab then (f slab).next else p) ≡ (f slab).next = ground (arith, c.0) in
    rw head (subst (λ (b : Ptr). Chain (unlink slab f) b (f slab).next ys) c.2 moved)
unlink-Chain f before p (x ∷ []) slab ys c d out =
    let at = next_in-Chain f before p (x ∷ []) slab ys c in
    let e : (f slab).prev ≡ x = c.3.2 in
    let p_other : (f slab).prev ≢ slab = ground (arith, e, d.0) in
    let n_other : (f slab).next ≢ slab = ground (arith, at, d.1.0, c.3.1) in
    let moved = moved_up f slab p_other n_other ys c.3.3 d.1.1 (ground (arith, e, d.0)) in
    let next : (unlink slab f x).next ≡ (f slab).next =
      ground (arith, next_unlinked f slab p_other n_other x c.1, e) in
    (
      ground (arith, c.0, d.0),
      c.1,
      ground (arith, prev_unlinked f slab p_other n_other x c.1, at, d.0, c.1, c.2),
      rw next (subst (λ (b : Ptr). Chain (unlink slab f) b (f slab).next ys) e moved),
    )
unlink-Chain f before p (x ∷ y ∷ xs) slab ys c d out =
    let at = next_in-Chain f before p (x ∷ y ∷ xs) slab ys c in
    let pr = prev_in-Chain f x (f x).next y xs slab ys c.3 in
    let apart = Distinct-parts (x ∷ y ∷ xs) (slab ∷ ys) d in
    let sp : has slab (x ∷ y ∷ xs) ≡ false = apart.2 slab (ground arith) in
    let np = apart.2 (f slab).next in
    let p_other : (f slab).prev ≢ slab = ground (arith, pr, sp) in
    let n_other : (f slab).next ≢ slab = ground (
      arith,
      at,
      apart.1.0,
      Chain-ne f before p (x ∷ y ∷ xs ++ (slab ∷ ys)) slab c,
      has-append slab (x ∷ y ∷ xs) (slab ∷ ys),
    ) in
    let ih = unlink-Chain f x (f x).next (y ∷ xs) slab ys c.3 d.1 d.0 in
    let next : (unlink slab f x).next ≡ (f x).next =
      ground (arith, next_unlinked f slab p_other n_other x c.1, pr, apart.0.0) in
    let other : (if (f x).next == slab then (f slab).next else (f x).next) ≡ (f x).next =
      ground (arith, c.3.0, sp) in
    let ih' = subst (λ (b : Ptr). Chain (unlink slab f) x b (y ∷ xs ++ ys)) other ih in
    (
      ground (arith, c.0, sp),
      c.1,
      ground (arith, prev_unlinked f slab p_other n_other x c.1, at, np, c.1, c.2),
      rw next ih',
    )
