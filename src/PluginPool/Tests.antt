-- ===== src/PluginPool/Tests.antt =====
-- A pool of numbers, which a reset makes even and the rebinding raises by the argument.
use flow_proxy.Base.{ℕ, ◌+◌, ◌*◌, ◌≡◌, refl, [], ◌∷◌, arith}
use flow_proxy.PluginPool.{Pool, acquire, release}
use flow_proxy.PluginPool.Reuse.{IsClean, acquire-release}

abbrev create : ℕ → ℕ
create n = n

abbrev rebind : ℕ → ℕ → ℕ
rebind n a = a + n

abbrev reset : ℕ → ℕ
reset a = a * 0

abbrev IsReset : ℕ → Type 0
IsReset a = a ≡ 0

abbrev one : Pool ℕ
one = record { instances = 0 ∷ []; max_size = 2 }

one-IsClean : IsClean create rebind reset IsReset one
one-IsClean = record { bounded = omega arith; clean = (refl, tt) }

acquire-release_example :
    acquire create rebind reset (release create rebind reset one 7) 3 ≡ (3, one)
acquire-release_example = acquire-release create rebind reset one 7 3 (omega arith)
