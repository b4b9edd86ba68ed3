-- ===== src/LogCleaner/Sorting.antt =====
-- The order in which the files are tried: `list.sort` by time, as a stable insertion.
use mathlib.Core.List.{Perm, perm_append_comm}
use mathlib.Core.List.Perm
use flow_proxy.Base.{
  ◌+◌, ◌≤◌, ◌≡◌, refl, sym, subst, inl, inr, List, [], ◌∷◌, ◌++◌, append_assoc, ltb, All,
  Bool-cases, if_true, if_false, if_intro, arith,
}
use flow_proxy.LogCleaner.{LogFile, total_size, insert_by_mtime, sort_by_mtime}

-- Each file is at least as old as the ones behind it.
abbrev pub Sorted : List LogFile → Type 0
Sorted [] = Unit
Sorted (f ∷ fs) = All (λ g. f.mtime ≤ g.mtime) fs × Sorted fs

pub All_weaken :
    {P Q : LogFile → Type 0}
    → ((f : LogFile) → P f → Q f)
    → (fs : List LogFile) → All P fs
    → All Q fs
All_weaken w [] a = tt
All_weaken w (f ∷ fs) a = (w f a.0, All_weaken w fs a.1)

pub regroup-perm : (g u l : List LogFile) → Perm (g ++ (u ++ l)) (u ++ (g ++ l))
regroup-perm g u l =
    rw (← append_assoc g u l, ← append_assoc u g l) (Perm.append_right l (perm_append_comm g u))

pub insert-All :
    (P : LogFile → Type 0) (f : LogFile) (fs : List LogFile)
    → P f
    → All P fs
    → All P (insert_by_mtime f fs)
unfolding insert_by_mtime
insert-All P f [] p a = (p, tt)
insert-All P f (g ∷ gs) p a =
    if_intro (All P) (ltb g.mtime f.mtime) _ _ (a.0, insert-All P f gs p a.1) (p, a)

insert-Sorted : (f : LogFile) (fs : List LogFile) → Sorted fs → Sorted (insert_by_mtime f fs)
unfolding insert_by_mtime
insert-Sorted f [] s = (tt, tt)
insert-Sorted f (g ∷ gs) s = elim (Bool-cases (ltb g.mtime f.mtime)) [
  | inl e ↦
      if_true Sorted (ltb g.mtime f.mtime) _ _ e
        (insert-All (λ h. g.mtime ≤ h.mtime) f gs (ground (arith, e)) s.0, insert-Sorted f gs s.1)
  | inr e ↦
      let below : f.mtime ≤ g.mtime = ground (arith, e) in
      subst Sorted (sym (if_false (ltb g.mtime f.mtime) _ _ e))
        ((below, All_weaken (λ h q. omega (arith, q, below)) gs s.0), s)
]

insert-perm : (f : LogFile) (fs : List LogFile) → Perm (insert_by_mtime f fs) (f ∷ fs)
unfolding insert_by_mtime
insert-perm f [] = Perm.refl (f ∷ [])
insert-perm f (g ∷ gs) =
    if_intro (λ l. Perm l (f ∷ g ∷ gs)) (ltb g.mtime f.mtime) _ _
      (Perm.trans (Perm.cons g (insert-perm f gs)) (Perm.swap f g gs)) (Perm.refl _)

pub sort-Sorted : (fs : List LogFile) → Sorted (sort_by_mtime fs)
unfolding sort_by_mtime
sort-Sorted [] = tt
sort-Sorted (f ∷ fs) = insert-Sorted f (sort_by_mtime fs) (sort-Sorted fs)

pub sort-perm : (fs : List LogFile) → Perm (sort_by_mtime fs) fs
unfolding sort_by_mtime
sort-perm [] = Perm.refl []
sort-perm (f ∷ fs) = Perm.trans (insert-perm f (sort_by_mtime fs)) (Perm.cons f (sort-perm fs))

total_size-insert :
    (f : LogFile) (fs : List LogFile) → total_size (insert_by_mtime f fs) ≡ f.size + total_size fs
unfolding insert_by_mtime
total_size-insert f [] = refl
total_size-insert f (g ∷ gs) =
    if_intro (λ l. total_size l ≡ f.size + (g.size + total_size gs)) (ltb g.mtime f.mtime) _ _
      (omega (arith, total_size-insert f gs)) refl

pub total_size-sort : (fs : List LogFile) → total_size (sort_by_mtime fs) ≡ total_size fs
unfolding sort_by_mtime
total_size-sort [] = refl
total_size-sort (f ∷ fs) = omega (arith, total_size-insert f (sort_by_mtime fs), total_size-sort fs)

pub sort-All : (P : LogFile → Type 0) (fs : List LogFile) → All P fs → All P (sort_by_mtime fs)
unfolding sort_by_mtime
sort-All P [] a = tt
sort-All P (f ∷ fs) a = insert-All P f (sort_by_mtime fs) a.0 (sort-All P fs a.1)
