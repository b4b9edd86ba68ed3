-- ===== src/Cli/Limits.antt =====
-- The timeout that proxy.py is given.
use flow_proxy.Base.{ℤ, pos, ℕ, ◌≤◌, ◌≡◌, ◌≢◌, ◌⊎◌, Bool, true, false, nat_eq}

-- Within the limits the number is kept, without a warning; else a limit is taken, with one.
abbrev pub IsClamped : ℤ → ℕ → Bool → Type 0
IsClamped n t warned =
    (1 ≤ t) × (t ≤ 86400) × (((n ≡ pos t) × (warned ≡ false)) ⊎ ((n ≢ pos t) × (warned ≡ true)))
