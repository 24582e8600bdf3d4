-- ===== src/Memory/Slab/Moves.antt =====
-- What moving a slab between lists keeps: the counts of free objects, and the other lists.
use kernel_study.Base.{
  ℕ, ◌≡◌, ◌≢◌, refl, true, false, ◌||◌, ◌⊎◌, inl, inr, List, [], ◌∷◌, ◌++◌, arith, ◌==◌,
  if◌then◌else◌, update, Bool-cases,
}
use kernel_study.Base.Members.{has, Distinct, has-append, Distinct-parts, Distinct-append}
use kernel_study.Memory.Slab.{
  Ptr, null, Slab, set_next, set_prev, set_free_count, unlink, push_front, pop_front,
}
use kernel_study.Memory.Slab.Chains.{
  next_in-Chain, prev_in-Chain, next_unlinked, unlink-Chain, unlink-SameLinks, Chain, SameLinks,
  Chain-frame, Chain-ne, push_front-Chain, push_front-SameLinks, pop_front-Chain,
  pop_front-SameLinks,
}

-- What the changes of the links leave of the counts, and the other way round.
pub free_count-push_front :
    (slab head a : Ptr) (f : Ptr → Slab) → (push_front slab head f a).free_count ≡ (f a).free_count
unfolding push_front set_next set_prev update
free_count-push_front slab head a f = ground arith

pub free_count-pop_front :
    (slab a : Ptr) (f : Ptr → Slab) → (pop_front slab f a).free_count ≡ (f a).free_count
unfolding pop_front set_prev update
free_count-pop_front slab a f = ground arith

pub free_count-unlink :
    (slab a : Ptr) (f : Ptr → Slab) → (unlink slab f a).free_count ≡ (f a).free_count
unfolding unlink set_next set_prev update
free_count-unlink slab a f = ground arith

pub free_count-set_free_count :
    (slab n a : Ptr) (f : Ptr → Slab)
    → (set_free_count slab n f a).free_count ≡ (if slab == a then n else (f a).free_count)
unfolding set_free_count update
free_count-set_free_count slab n a f = ground arith

pub SameLinks-set_free_count :
    (slab n : ℕ) (f : Ptr → Slab) (a : Ptr) → SameLinks f (set_free_count slab n f) a
unfolding set_free_count update
SameLinks-set_free_count slab n f a = ground arith

-- The first slab of one list becomes the first of another.
module _ (f : Ptr → Slab) (slab full : Ptr) (ps fs : List Ptr) (p : Chain f null slab (slab ∷ ps))
    (q : Chain f null full fs) (d : Distinct (slab ∷ ps ++ fs)) where
  abbrev pub popped : Ptr → Slab
  popped = pop_front slab f

  pub apart_lists : (a : Ptr) → has a fs ≡ true → has a ps ≡ false
  apart_lists = (Distinct-parts ps fs d.1).2

  pub outside_fs : has slab fs ≡ false
  outside_fs = ground (arith, d.0, has-append slab ps fs)

  pub outside_ps : has slab ps ≡ false
  outside_ps = ground (arith, d.0, has-append slab ps fs)

  pub moved_full : Chain (push_front slab full popped) null slab (slab ∷ fs)
  moved_full =
      push_front-Chain popped slab full fs
        (Chain-frame f popped null full fs
          (λ a i. pop_front-SameLinks f slab ps a p (apart_lists a i)) q)
        (Distinct-parts ps fs d.1).1 outside_fs p.1

  pub moved_partial : Chain (push_front slab full popped) null (popped slab).next ps
  moved_partial =
      Chain-frame popped (push_front slab full popped) null (popped slab).next ps
        (λ a i.
          push_front-SameLinks popped slab full fs a
            (Chain-frame f popped null full fs
              (λ a i. pop_front-SameLinks f slab ps a p (apart_lists a i)) q)
            (ground (arith, apart_lists a, outside_ps, i)))
        (pop_front-Chain f slab ps p (outside_ps, (Distinct-parts ps fs d.1).0))

  pub moved-Distinct : Distinct (ps ++ (slab ∷ fs))
  moved-Distinct =
      Distinct-append ps (slab ∷ fs) (Distinct-parts ps fs d.1).0
        (outside_fs, (Distinct-parts ps fs d.1).1)
        (λ a i. ground (arith, apart_lists a, outside_ps, i))

pub has_without :
    (a slab : Ptr) (xs ys : List Ptr)
    → has a (xs ++ (slab ∷ ys)) ≡ ((a == slab) || has a (xs ++ ys))
has_without a slab [] ys = refl
has_without a slab (x ∷ xs) ys = ground (arith, has_without a slab xs ys)

Distinct-without :
    (slab : Ptr) (xs ys : List Ptr)
    → Distinct (xs ++ (slab ∷ ys))
    → Distinct (xs ++ ys) × (has slab (xs ++ ys) ≡ false)
Distinct-without slab [] ys d = (d.1, d.0)
Distinct-without slab (x ∷ xs) ys d =
    let rest = Distinct-without slab xs ys d.1 in
    (
      (ground (arith, d.0, has_without x slab xs ys), rest.0),
      ground (arith, d.0, has_without x slab xs ys, rest.1),
    )

prev_at :
    (f : Ptr → Slab) (before p : Ptr) (xs : List Ptr) (slab : Ptr) (ys : List Ptr)
    → Chain f before p (xs ++ (slab ∷ ys))
    → ((f slab).prev ≡ before) ⊎ (has (f slab).prev xs ≡ true)
prev_at f before p [] slab ys c = inl c.2
prev_at f before p (x ∷ xs) slab ys c = inr (prev_in-Chain f before p x xs slab ys c)

-- A slab leaves the list in which it stands between `xs` and `ys`.
module _ (f : Ptr → Slab) (p : Ptr) (xs : List Ptr) (slab : Ptr) (ys : List Ptr)
    (c : Chain f null p (xs ++ (slab ∷ ys))) (d : Distinct (xs ++ (slab ∷ ys))) where
  null_outside : has null (xs ++ (slab ∷ ys)) ≡ false
  null_outside = elim (Bool-cases (has null (xs ++ (slab ∷ ys)))) [
    | inl i ↦ absurd (Chain-ne f null p (xs ++ (slab ∷ ys)) null c i refl)
    | inr o ↦ o
  ]

  prev_place : ((f slab).prev ≡ null) ⊎ (has (f slab).prev xs ≡ true)
  prev_place = prev_at f null p xs slab ys c

  next_place : ((f slab).next ≡ null) ⊎ (has (f slab).next ys ≡ true)
  next_place = next_in-Chain f null p xs slab ys c

  slab_ne : slab ≢ null
  slab_ne =
      Chain-ne f null p (xs ++ (slab ∷ ys)) slab c (ground (arith, has_without slab slab xs ys))

  slab_outside : (has slab xs ≡ false) × (has slab ys ≡ false)
  slab_outside =
      let o = (Distinct-without slab xs ys d).1 in
      (ground (arith, has-append slab xs ys, o), ground (arith, has-append slab xs ys, o))

  prev_other : (f slab).prev ≢ slab
  prev_other = ground (arith, prev_place, slab_ne, slab_outside.0)

  next_other : (f slab).next ≢ slab
  next_other = ground (arith, next_place, slab_ne, slab_outside.1)

  next-unlink : (unlink slab f slab).next ≡ (f slab).next
  next-unlink = ground (arith, next_unlinked f slab prev_other next_other slab slab_ne, prev_other)

  pub unlinked_rest :
      Chain (unlink slab f) null (if p == slab then (unlink slab f slab).next else p) (xs ++ ys)
  unlinked_rest = rw next-unlink (unlink-Chain f null p xs slab ys c d null_outside)

  pub unlinked_others :
      (a : Ptr) → a ≢ null → has a (xs ++ (slab ∷ ys)) ≡ false → SameLinks f (unlink slab f) a
  unlinked_others a ne out =
      unlink-SameLinks f slab a (ground (arith, prev_place, has-append a xs (slab ∷ ys), out, ne))
        (ground (arith, next_place, has-append a xs (slab ∷ ys), out, ne))

  pub unlinked-Distinct : Distinct (xs ++ ys) × (has slab (xs ++ ys) ≡ false)
  unlinked-Distinct = Distinct-without slab xs ys d
