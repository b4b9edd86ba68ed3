-- ===== src/LogCleaner/Limits.antt =====
-- What a cleaning removes to bring the directory under its limit.
use mathlib.Core.List.{Perm, perm_middle}
use mathlib.Core.List.Perm
use flow_proxy.Base.{
  ℕ, ◌+◌, ◌-◌, ◌≤◌, ◌<◌, ◌≡◌, refl, ap, sym, ◌∙◌, subst, ◌⊎◌, inl, inr, true, ◌||◌, List, [], ◌∷◌,
  ◌++◌, leb, All, keep_if, Bool-cases, if_true, if_false, if_intro, arith,
}
use flow_proxy.LogCleaner.{
  LogFile, Disk, Settings, Sweep, keep_file, drop_file, total_size, sort_by_mtime, sweep_oldest,
  sweep_seen, seen, unseen, max_size_bytes, cleanup_by_size,
}
use flow_proxy.LogCleaner.Sorting.{
  Sorted, All_weaken, regroup-perm, sort-Sorted, sort-perm, sort-All, total_size-sort,
}
use flow_proxy.LogCleaner.Sweeps.{
  IsAccount, nothing-IsAccount, keep_file-IsAccount, drop_file-IsAccount,
}

-- The size of the last file of a list.
pub last_size : List LogFile → ℕ
last_size [] = 0
last_size (f ∷ []) = f.size
last_size (f ∷ g ∷ fs) = last_size (g ∷ fs)

module _ (disk : Disk) where
  -- Of files of this total size besides others of size `e`: what the loop does for the limit.
  pub record IsTrimmed (limit e : ℕ) (files : List LogFile) (s : Sweep) : Type 0 where
    pub account : IsAccount files s
    -- The limit is met, or nothing else can be removed.
    pub met : (e + total_size s.left ≤ limit) ⊎ All (λ f. disk.unlink_fails f ≡ true) s.left
    -- What went is no younger than what stayed and could have gone.
    pub oldest :
        All (λ g. All (λ l. (g.mtime ≤ l.mtime) ⊎ (disk.unlink_fails l ≡ true)) s.left) s.gone
    -- Without the last deletion the limit is not met.
    pub needed : (s.gone ≡ []) ⊎ (limit < e + total_size s.left + last_size s.gone)
    pub sizes : total_size s.gone + total_size s.left ≡ total_size files

  oldest-All :
      (P : LogFile → Type 0) (limit total : ℕ) (fs : List LogFile)
      → All P fs
      → All P (sweep_oldest disk limit total fs).left
  unfolding sweep_oldest keep_file drop_file
  oldest-All P limit total [] a = tt
  oldest-All P limit total (f ∷ fs) a =
      if_intro (λ (s : Sweep). All P s.left) (leb total limit || disk.unlink_fails f) _ _
        (a.0, oldest-All P limit total fs a.1) (oldest-All P limit (total - f.size) fs a.1)

  -- Once the limit is met, nothing more goes.
  stays_met :
      (limit total : ℕ) (fs : List LogFile)
      → total ≤ limit
      → ((sweep_oldest disk limit total fs).gone ≡ [])
        × ((sweep_oldest disk limit total fs).left ≡ fs)
  unfolding sweep_oldest keep_file
  stays_met limit total [] h = (refl, refl)
  stays_met limit total (f ∷ fs) h =
      let (g, l) = stays_met limit total fs h in
      if_true (λ (s : Sweep). (s.gone ≡ []) × (s.left ≡ f ∷ fs))
        (leb total limit || disk.unlink_fails f) _ _ (ground arith) (g, ap (λ z. f ∷ z) l)

  keep_file-IsTrimmed :
      (limit e : ℕ) (f : LogFile) (fs : List LogFile) (s : Sweep)
      → ((s.gone ≡ []) × (e + f.size + total_size s.left ≤ limit)) ⊎ (disk.unlink_fails f ≡ true)
      → IsTrimmed limit (e + f.size) fs s
      → IsTrimmed limit e (f ∷ fs) (keep_file f s)
  unfolding keep_file
  keep_file-IsTrimmed limit e f fs s why h = record {
    account = keep_file-IsAccount f fs s h.account;
    met = elim why [
      | inl (n, m) ↦ inl (omega (arith, m))
      | inr u ↦ elim h.met [ inl m ↦ inl (omega (arith, m)) | inr a ↦ inr (u, a) ]
    ];
    oldest = elim why [
      | inl (n, m) ↦
          subst
            (All (λ g. All (λ l. (g.mtime ≤ l.mtime) ⊎ (disk.unlink_fails l ≡ true)) (f ∷ s.left)))
            (sym n) tt
      | inr u ↦ All_weaken (λ g a. (inr u, a)) s.gone h.oldest
    ];
    needed = elim h.needed [ inl n ↦ inl n | inr n ↦ inr (omega (arith, n)) ];
    sizes = omega (arith, h.sizes);
  }

  drop_file-IsTrimmed :
      (limit e : ℕ) (f : LogFile) (fs : List LogFile) (s : Sweep)
      → limit < e + total_size (f ∷ fs)
      → All (λ l. f.mtime ≤ l.mtime) s.left
      → IsTrimmed limit e fs s
      → IsTrimmed limit e (f ∷ fs) (drop_file f s)
  unfolding drop_file
  drop_file-IsTrimmed limit e f fs s over below h = record {
    account = drop_file-IsAccount f fs s h.account;
    met = h.met;
    oldest = (All_weaken (λ l q. inl q) s.left below, h.oldest);
    needed = last_needed s.gone h.needed h.sizes;
    sizes = omega (arith, h.sizes);
  }
    where
      last_needed :
          (gone : List LogFile)
          → (gone ≡ []) ⊎ (limit < e + total_size s.left + last_size gone)
          → total_size gone + total_size s.left ≡ total_size fs
          → (f ∷ gone ≡ []) ⊎ (limit < e + total_size s.left + last_size (f ∷ gone))
      last_needed [] n z = inr (unfold last_size in omega (arith, z, over))
      last_needed (g ∷ gs) (inl n) z = cc
      last_needed (g ∷ gs) (inr n) z = inr (unfold last_size in n)

  sweep_oldest-IsTrimmed :
      (limit e total : ℕ) (fs : List LogFile)
      → total ≡ e + total_size fs
      → Sorted fs
      → IsTrimmed limit e fs (sweep_oldest disk limit total fs)
  unfolding sweep_oldest
  sweep_oldest-IsTrimmed limit e total [] q s = record {
    account = nothing-IsAccount [];
    met = inr tt;
    oldest = tt;
    needed = inl refl;
    sizes = refl;
  }
  sweep_oldest-IsTrimmed limit e total (f ∷ fs) q (below, s) =
      let same = sweep_oldest-IsTrimmed limit (e + f.size) total fs (omega (arith, q)) s in
      let less = sweep_oldest-IsTrimmed limit e (total - f.size) fs (omega (arith, q)) s in
      elim (Bool-cases (leb total limit || disk.unlink_fails f)) [
        | inl b ↦
            if_true (IsTrimmed limit e (f ∷ fs)) (leb total limit || disk.unlink_fails f) _ _ b
              (keep_file-IsTrimmed limit e f fs _ (kept b) same)
        | inr b ↦
            let over : limit < e + total_size (f ∷ fs) = ground (arith, b, q) in
            subst (IsTrimmed limit e (f ∷ fs))
              (sym (if_false (leb total limit || disk.unlink_fails f) _ _ b))
              (drop_file-IsTrimmed limit e f fs _ over
                (oldest-All (λ l. f.mtime ≤ l.mtime) limit (total - f.size) fs below) less)
      ]
    where
      kept :
          (leb total limit || disk.unlink_fails f) ≡ true
          → (((sweep_oldest disk limit total fs).gone ≡ [])
              × (e + f.size + total_size (sweep_oldest disk limit total fs).left ≤ limit))
            ⊎ (disk.unlink_fails f ≡ true)
      kept b = elim (Bool-cases (leb total limit)) [
        | inl t ↦
            let small : total ≤ limit = ground (arith, t) in
            let (g, l) = stays_met limit total fs small in
            inl (g, omega (arith, ap total_size l, small, q))
        | inr t ↦ inr (ground (arith, t, b))
      ]

  pub sweep_seen-IsTrimmed :
      (limit : ℕ) (files : List LogFile) → IsTrimmed limit 0 files (sweep_seen disk limit files)
  unfolding sweep_seen
  sweep_seen-IsTrimmed limit files = elim (Bool-cases (leb (total_size files) limit)) [
    | inl b ↦
        let small : total_size files ≤ limit = ground (arith, b) in
        if_true (IsTrimmed limit 0 files) (leb (total_size files) limit) _ _ b (record {
          account = nothing-IsAccount files;
          met = inl (omega arith);
          oldest = tt;
          needed = inl refl;
          sizes = omega arith;
        })
    | inr b ↦
        subst (IsTrimmed limit 0 files) (sym (if_false (leb (total_size files) limit) _ _ b)) (
          resorted (
            sweep_oldest-IsTrimmed limit 0 (total_size files) (sort_by_mtime files)
              (omega (arith, total_size-sort files)) (sort-Sorted files)))
  ]
    where
      resorted : {s : Sweep} → IsTrimmed limit 0 (sort_by_mtime files) s → IsTrimmed limit 0 files s
      resorted h = record {
        account = record {
          moved = Perm.trans h.account.moved (sort-perm files);
          counted = h.account.counted;
          freed = h.account.freed;
        };
        met = h.met;
        oldest = h.oldest;
        needed = h.needed;
        sizes = h.sizes ∙ total_size-sort files;
      }

  pub seen_left-All :
      (P : LogFile → Type 0) (limit : ℕ) (files : List LogFile)
      → All P files
      → All P (sweep_seen disk limit files).left
  unfolding sweep_seen
  seen_left-All P limit files a =
      if_intro (λ (s : Sweep). All P s.left) (leb (total_size files) limit) _ _ a
        (oldest-All P limit (total_size files) (sort_by_mtime files) (sort-All P files a))

  seen-perm : (files : List LogFile) → Perm (unseen disk files ++ seen disk files) files
  unfolding seen unseen keep_if
  seen-perm [] = Perm.refl []
  seen-perm (f ∷ fs) = elim (Bool-cases (disk.stat_fails f)) [
    | inl e ↦ rw e (Perm.cons f (seen-perm fs))
    | inr e ↦
        rw e (Perm.trans (perm_middle (unseen disk fs) (seen disk fs)) (Perm.cons f (seen-perm fs)))
  ]

  -- What the loop saw is trimmed to the limit; what it could not look at stays.
  pub record IsWithin (limit : ℕ) (files : List LogFile) (s : Sweep) : Type 0 where
    pub account : IsAccount files s
    pub kept : List LogFile
    pub stays : s.left ≡ unseen disk files ++ kept
    pub trimmed : IsTrimmed limit 0 (seen disk files) (record s { left = kept })

  -- By size: every file is gone or left, and the counters count the ones that are gone. The files
  -- that can be looked at meet the limit, or none of those left can be unlinked. What went is no
  -- younger than any that is left and could have gone, and the last deletion was needed.
  pub cleanup_by_size-IsWithin :
      (s : Settings) (files : List LogFile)
      → IsWithin (max_size_bytes s) files (cleanup_by_size disk s files)
  unfolding cleanup_by_size
  cleanup_by_size-IsWithin s files = record {
    account = record {
      moved =
          Perm.trans (regroup-perm swept_files.gone (unseen disk files) swept_files.left) (
            Perm.trans (Perm.append_left (unseen disk files) swept.account.moved)
              (seen-perm files));
      counted = swept.account.counted;
      freed = swept.account.freed;
    };
    kept = (sweep_seen disk (max_size_bytes s) (seen disk files)).left;
    stays = refl;
    trimmed = swept;
  }
    where
      swept_files : Sweep
      swept_files = sweep_seen disk (max_size_bytes s) (seen disk files)

      swept :
          IsTrimmed
            (max_size_bytes s)
            0
            (seen disk files)
            (sweep_seen disk (max_size_bytes s) (seen disk files))
      swept = sweep_seen-IsTrimmed (max_size_bytes s) (seen disk files)
