-- ===== src/Plugins/Numbers.antt =====
-- The numbers of the instances of a class, for flow_proxy_plugin/plugins/web_server_plugin.py.
use mathlib.Core.List.{Perm, perm_middle, Nodup, Nodup-cons, Mem, mem-cons, mem-cons_of_mem}
use mathlib.Core.List.Perm
use mathlib.Core.Logic.Or
use flow_proxy.Base.{
  ℕ, ◌+◌, ◌==◌, nat_eq, ◌≡◌, ◌≢◌, sym, subst, inl, inr, true, List, [], ◌∷◌, ◌++◌, All, contains,
  Bool-cases, ltb, if_intro, arith,
}
use flow_proxy.LoadBalancer.{remove}

-- Different numbers, all below a bound.
pub record AreFresh (n : ℕ) (ns : List ℕ) : Type 0 where
  pub apart : Nodup ns
  pub older : (k : ℕ) → Mem k ns → ltb k n ≡ true

pub AreFresh-perm : (n : ℕ) (ns ms : List ℕ) → Perm ns ms → AreFresh n ns → AreFresh n ms
AreFresh-perm n ns ms p h = record {
  apart = Perm.nodup p h.apart;
  older = λ k m. h.older k ((Perm.mem_iff p).1 m);
}

ltb-prop : (k n : ℕ) → IsProp (ltb k n ≡ true)
ltb-prop k n = hlevel

pub AreFresh-cons : (n : ℕ) (ns : List ℕ) → AreFresh n ns → AreFresh (n + 1) (n ∷ ns)
AreFresh-cons n ns h = record {
  apart = Nodup-cons.1 ((λ m. let l = h.older n m in ground (arith, l)), h.apart);
  older = λ k m.
      Or.elim (ltb-prop k (n + 1)) (mem-cons.0 m) (λ e. ground (arith, e))
        (λ t. let l = h.older k t in ground (arith, l));
}

pub AreFresh-tail : (n k : ℕ) (ns : List ℕ) → AreFresh n (k ∷ ns) → AreFresh n ns
AreFresh-tail n k ns h = record {
  apart = (Nodup-cons.0 h.apart).1;
  older = λ j m. h.older j (mem-cons_of_mem k m);
}

pub AreFresh-later : (n : ℕ) (ns : List ℕ) → AreFresh n ns → AreFresh (n + 1) ns
AreFresh-later n ns h = record {
  apart = h.apart;
  older = λ k m. let l = h.older k m in ground (arith, l);
}

not_mem_all : (n : ℕ) (ns : List ℕ) → ¬ Mem n ns → All (λ k. k ≢ n) ns
not_mem_all n [] h = tt
not_mem_all n (k ∷ ns) h =
    ((λ e. h (mem-cons.1 (Or.inl (sym e)))), not_mem_all n ns (λ m. h (mem-cons_of_mem k m)))

all_parts :
    (n : ℕ) (ns ms : List ℕ)
    → All (λ k. k ≢ n) (ns ++ ms)
    → All (λ k. k ≢ n) ns × All (λ k. k ≢ n) ms
all_parts n [] ms h = (tt, h)
all_parts n (k ∷ ns) ms h = let (a, b) = all_parts n ns ms h.1 in ((h.0, a), b)

-- A number in between is none of the others.
pub AreFresh-apart :
    (m n : ℕ) (ns ms : List ℕ)
    → AreFresh m (ns ++ n ∷ ms)
    → All (λ k. k ≢ n) ns × All (λ k. k ≢ n) ms
AreFresh-apart m n ns ms h =
    let moved = AreFresh-perm m _ _ (perm_middle ns ms) h in
    all_parts n ns ms (not_mem_all n (ns ++ ms) (Nodup-cons.0 moved.apart).0)

pub All-contains : (P : ℕ → Type 0) (n : ℕ) (ns : List ℕ) → All P ns → contains n ns ≡ true → P n
All-contains P n [] h c = cc
All-contains P n (k ∷ ns) h c = elim (Bool-cases (k == n)) [
  | inl same ↦ subst P ((nat_eq.test_iff k n).0 same) h.0
  | inr other ↦ All-contains P n ns h.1 (rw other at c)
]

pub All-remove : (P : ℕ → Type 0) (n : ℕ) (ns : List ℕ) → All P ns → All P (remove n ns)
unfolding remove
All-remove P n [] h = tt
All-remove P n (k ∷ ns) h =
    if_intro (All P) (k == n) ns (k ∷ remove n ns) h.1 (h.0, All-remove P n ns h.1)
