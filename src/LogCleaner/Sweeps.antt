-- ===== src/LogCleaner/Sweeps.antt =====
-- What a cleaning removes by age, and its counters.
use mathlib.Core.List.{Perm, perm_middle}
use mathlib.Core.List.Perm
use flow_proxy.Base.{
  ℕ, ◌≤◌, ◌<◌, ◌≡◌, refl, sym, subst, ◌⊎◌, inl, inr, true, false, List, [], ◌∷◌, ◌++◌, length, All,
  Bool-cases, if_true, if_false, arith,
}
use flow_proxy.LogCleaner.{
  LogFile, Disk, Sweep, nothing, keep_file, drop_file, total_size, expires, sweep_expired,
}

-- Every file is either gone or left, and the counters are the number and the size of the ones that
-- are gone.
pub record IsAccount (files : List LogFile) (s : Sweep) : Type 0 where
  pub moved : Perm (s.gone ++ s.left) files
  pub counted : s.deleted_files ≡ length s.gone
  pub freed : s.freed_space ≡ total_size s.gone

pub nothing-IsAccount : (files : List LogFile) → IsAccount files (record nothing { left = files })
nothing-IsAccount files = record { moved = Perm.refl files; counted = refl; freed = refl }

pub keep_file-IsAccount :
    (f : LogFile) (fs : List LogFile) (s : Sweep)
    → IsAccount fs s
    → IsAccount (f ∷ fs) (keep_file f s)
unfolding keep_file
keep_file-IsAccount f fs s a = record {
  moved = Perm.trans (perm_middle s.gone s.left) (Perm.cons f a.moved);
  counted = a.counted;
  freed = a.freed;
}

pub drop_file-IsAccount :
    (f : LogFile) (fs : List LogFile) (s : Sweep)
    → IsAccount fs s
    → IsAccount (f ∷ fs) (drop_file f s)
unfolding drop_file
drop_file-IsAccount f fs s a = record {
  moved = Perm.cons f a.moved;
  counted = omega (arith, a.counted);
  freed = omega (arith, a.freed);
}

module _ (disk : Disk) (cutoff : ℕ) where
  -- The file can be looked at, is older than the cutoff, and can be unlinked.
  abbrev pub IsOld : LogFile → Type 0
  IsOld f = (disk.stat_fails f ≡ false) × (f.mtime < cutoff) × (disk.unlink_fails f ≡ false)

  abbrev pub IsYoung : LogFile → Type 0
  IsYoung f = (disk.stat_fails f ≡ true) ⊎ (cutoff ≤ f.mtime) ⊎ (disk.unlink_fails f ≡ true)

  expires-IsOld : (f : LogFile) → expires disk cutoff f ≡ true → IsOld f
  unfolding expires
  expires-IsOld f h = ground arith

  expires-IsYoung : (f : LogFile) → expires disk cutoff f ≡ false → IsYoung f
  unfolding expires
  expires-IsYoung f h = elim (Bool-cases (disk.stat_fails f)) [
    | inl s ↦ inl s
    | inr s ↦ elim (Bool-cases (disk.unlink_fails f)) [
      | inl u ↦ inr (inr u)
      | inr u ↦ inr (inl (ground (arith, s, u)))
    ]
  ]

  -- By age exactly the files go that can be looked at, are older and can be unlinked.
  pub record IsAged (files : List LogFile) (s : Sweep) : Type 0 where
    pub account : IsAccount files s
    pub old : All IsOld s.gone
    pub young : All IsYoung s.left

  pub sweep_expired-IsAged : (files : List LogFile) → IsAged files (sweep_expired disk cutoff files)
  unfolding sweep_expired
  sweep_expired-IsAged [] = record { account = nothing-IsAccount []; old = tt; young = tt }
  sweep_expired-IsAged (f ∷ fs) =
      let rest = sweep_expired-IsAged fs in
      elim (Bool-cases (expires disk cutoff f)) [
        | inl e ↦ if_true (IsAged (f ∷ fs)) (expires disk cutoff f) _ _ e (
            unfold drop_file in
            record {
              account = drop_file-IsAccount f fs _ rest.account;
              old = (expires-IsOld f e, rest.old);
              young = rest.young;
            })
        | inr e ↦ subst (IsAged (f ∷ fs)) (sym (if_false (expires disk cutoff f) _ _ e)) (
            unfold keep_file in
            record {
              account = keep_file-IsAccount f fs _ rest.account;
              old = rest.old;
              young = (expires-IsYoung f e, rest.young);
            })
      ]
