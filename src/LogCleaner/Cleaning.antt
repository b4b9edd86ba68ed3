-- ===== src/LogCleaner/Cleaning.antt =====
-- A whole cleaning: by age, then, where a limit is set, by size.
use mathlib.Core.List.Perm
use flow_proxy.Base.{
  ℕ, ◌+◌, ◌≤◌, ◌<◌, ◌≡◌, refl, ap, sym, ◌∙◌, subst, ◌⊎◌, inl, inr, Bool, true, false, not, List, [],
  ◌∷◌, ◌++◌, append_assoc, append-nil, length-append, ltb, All, All-append, keep_if, keep_if-All,
  Bool-cases, if_true, if_false, arith,
}
use flow_proxy.LogCleaner.{
  LogFile, Disk, Settings, Sweep, both, cutoff_time, total_size, sweep_expired, seen, unseen,
  max_size_bytes, cleanup_by_size, cleanup_logs,
}
use flow_proxy.LogCleaner.Sweeps.{IsAccount, IsOld, IsYoung, IsAged, sweep_expired-IsAged}
use flow_proxy.LogCleaner.Limits.{cleanup_by_size-IsWithin, sweep_seen-IsTrimmed, seen_left-All}
use flow_proxy.LogCleaner.Sorting.{All_weaken}

total_size-append : (xs ys : List LogFile) → total_size (xs ++ ys) ≡ total_size xs + total_size ys
total_size-append [] ys = omega arith
total_size-append (x ∷ xs) ys = omega (arith, total_size-append xs ys)

both-IsAccount :
    (files : List LogFile) (s t : Sweep)
    → IsAccount files s
    → IsAccount s.left t
    → IsAccount files (both s t)
unfolding both
both-IsAccount files s t a b = record {
  moved =
      rw (append_assoc s.gone t.gone t.left) (Perm.trans (Perm.append_left s.gone b.moved) a.moved);
  counted = omega (arith, a.counted, b.counted, length-append s.gone t.gone);
  freed = omega (arith, a.freed, b.freed, total_size-append s.gone t.gone);
}

module _ (disk : Disk) where
  keep_none :
      (p : LogFile → Bool) (fs : List LogFile) → All (λ f. p f ≡ false) fs → keep_if p fs ≡ []
  unfolding keep_if
  keep_none p [] a = refl
  keep_none p (f ∷ fs) a = rw (a.0, keep_none p fs a.1) refl

  keep_every :
      (p : LogFile → Bool) (fs : List LogFile) → All (λ f. p f ≡ true) fs → keep_if p fs ≡ fs
  unfolding keep_if
  keep_every p [] a = refl
  keep_every p (f ∷ fs) a = rw (a.0, keep_every p fs a.1) refl

  keep_if-append :
      (p : LogFile → Bool) (xs ys : List LogFile)
      → keep_if p (xs ++ ys) ≡ keep_if p xs ++ keep_if p ys
  unfolding keep_if
  keep_if-append p [] ys = refl
  keep_if-append p (x ∷ xs) ys = elim (Bool-cases (p x)) [
    | inl e ↦ rw e (rw (keep_if-append p xs ys) refl)
    | inr e ↦ rw e (keep_if-append p xs ys)
  ]

  passing : (p : LogFile → Bool) (fs : List LogFile) → All (λ f. p f ≡ true) (keep_if p fs)
  unfolding keep_if
  passing p [] = tt
  passing p (f ∷ fs) = elim (Bool-cases (p f)) [
    | inl e ↦ rw e (e, passing p fs)
    | inr e ↦ rw e (passing p fs)
  ]

  passing_seen : (fs : List LogFile) → All (λ f. not (disk.stat_fails f) ≡ true) (seen disk fs)
  unfolding seen
  passing_seen fs = passing (λ f. not (disk.stat_fails f)) fs

  -- What a cleaning at `now` leaves and what it removed, in the two stages.
  pub record IsCleaned (now : ℕ) (settings : Settings) (files : List LogFile) (s : Sweep)
      : Type 0 where
    pub account : IsAccount files s
    pub young : All (IsYoung disk (cutoff_time now settings)) s.left
    pub aged : List LogFile
    pub trimmed : List LogFile
    pub stages : s.gone ≡ aged ++ trimmed
    pub old : All (IsOld disk (cutoff_time now settings)) aged
    pub limited :
        ((settings.max_size_mb ≡ 0) × (trimmed ≡ []))
        ⊎ ((0 < settings.max_size_mb)
            × ((total_size (seen disk s.left) ≤ max_size_bytes settings)
                ⊎ All (λ f. disk.unlink_fails f ≡ true) (seen disk s.left)))

  -- The files that could not be looked at are none of the ones that the limit is about.
  seen-parts :
      (files kept : List LogFile)
      → All (λ f. not (disk.stat_fails f) ≡ true) kept
      → seen disk (unseen disk files ++ kept) ≡ kept
  unfolding seen unseen
  seen-parts files kept a =
      keep_if-append (λ f. not (disk.stat_fails f)) (keep_if disk.stat_fails files) kept
      ∙ ap (λ z. z ++ keep_if (λ f. not (disk.stat_fails f)) kept)
          (keep_none (λ f. not (disk.stat_fails f)) _
            (All_weaken (λ f q. rw q refl) _ (passing disk.stat_fails files)))
      ∙ keep_every (λ f. not (disk.stat_fails f)) kept a

  by_size-All :
      (P : LogFile → Type 0) (s : Settings) (files : List LogFile)
      → All P files
      → All P (cleanup_by_size disk s files).left
  unfolding cleanup_by_size seen unseen
  by_size-All P s files a =
      All-append P (unseen disk files) _ (keep_if-All disk.stat_fails P files a).0 (
        seen_left-All disk P (max_size_bytes s) (seen disk files)
          (keep_if-All (λ f. not (disk.stat_fails f)) P files a).0)

  sized_limit :
      (s : Settings) (files : List LogFile)
      → (total_size (seen disk (cleanup_by_size disk s files).left) ≤ max_size_bytes s)
        ⊎ All (λ f. disk.unlink_fails f ≡ true) (seen disk (cleanup_by_size disk s files).left)
  unfolding cleanup_by_size
  sized_limit s files =
      rw
        (seen-parts files _ (
          seen_left-All disk (λ f. not (disk.stat_fails f) ≡ true) (max_size_bytes s)
            (seen disk files) (passing_seen files)))
        (elim (sweep_seen-IsTrimmed disk (max_size_bytes s) (seen disk files)).met [
          | inl m ↦ inl (omega (arith, m))
          | inr a ↦ inr a
        ])

  -- A cleaning accounts for every file. By age exactly the files go that can be looked at, are
  -- older than the retention and can be unlinked; others go only where a size limit is set, and then
  -- the files that are left meet it, or none of them can be unlinked.
  pub cleanup_logs-IsCleaned :
      (now : ℕ) (settings : Settings) (files : List LogFile)
      → IsCleaned now settings files (cleanup_logs disk now settings files)
  unfolding cleanup_logs
  cleanup_logs-IsCleaned now settings files = elim (Bool-cases (ltb 0 settings.max_size_mb)) [
    | inl b ↦ if_true (IsCleaned now settings files) (ltb 0 settings.max_size_mb) _ _ b (record {
      account =
          both-IsAccount files aged _ by_age.account
            (cleanup_by_size-IsWithin disk settings aged.left).account;
      young = by_size-All (IsYoung disk (cutoff_time now settings)) settings aged.left by_age.young;
      aged = aged.gone;
      trimmed = (cleanup_by_size disk settings aged.left).gone;
      stages = refl;
      old = by_age.old;
      limited = inr (ground (arith, b), sized_limit settings aged.left);
    })
    | inr b ↦
        let none_set : settings.max_size_mb ≡ 0 = ground (arith, b) in
        subst (IsCleaned now settings files) (sym (if_false (ltb 0 settings.max_size_mb) _ _ b))
          (record {
            account = by_age.account;
            young = by_age.young;
            aged = aged.gone;
            trimmed = [];
            stages = sym (append-nil aged.gone);
            old = by_age.old;
            limited = inl (none_set, refl);
          })
  ]
    where
      aged : Sweep
      aged = sweep_expired disk (cutoff_time now settings) files

      by_age : IsAged disk (cutoff_time now settings) files aged
      by_age = sweep_expired-IsAged disk (cutoff_time now settings) files
