-- ===== src/ProcessServices/HttpClient/Threads.antt =====
-- `get_http_client` and `mark_http_client_dirty` on any number of threads, a shared access at a
-- time. Each thread makes one of the two calls. A client is a number, and making one does not raise.
pub mod Rebuilt
use flow_proxy.Base.{
  ℕ, ◌+◌, ◌==◌, nat_eq, Bool, true, false, Option, none, some, List, [], ◌∷◌, if◌then◌else◌,
}

pub record Shared : Type 0 where
  pub http_client : Option ℕ
  -- The thread that holds `_client_lock`.
  pub client_lock : Option ℕ
  pub made : ℕ
  pub closed : List ℕ
  -- How often the client was set to None.
  pub marks : ℕ

pub data Place : Type 0 where
  asking : Place  -- before the first test
  locking : Place  -- before the lock
  retesting : Place  -- with the lock, before the second test
  making : Place  -- before the assignment of a new client
  unlocking : Place  -- before the release of the lock
  answering : Place  -- before the read of the result
  answered : Option ℕ → Place
  marking : Place  -- before the test
  closing : Place  -- before the second read, and `close`
  clearing : Place  -- before the assignment of None
  cleared : Place

abbrev pub one_client : Shared
one_client = record { http_client = some 0; client_lock = none; made = 1; closed = []; marks = 0 }

tested : Option ℕ → Place
tested none = locking
tested (some c) = answering

lock_client : ℕ → Shared → Option ℕ → Shared × Place
lock_client i s none = (record s { client_lock = some i }, retesting)
lock_client i s (some j) = (s, locking)

retested : Option ℕ → Place
retested none = making
retested (some c) = unlocking

marked : Option ℕ → Place
marked none = clearing
marked (some c) = closing

-- `close` of None raises, which the call swallows.
close_client : Shared → Option ℕ → Shared
close_client s none = s
close_client s (some c) = record s { closed = c ∷ s.closed }

client_move : ℕ → Shared → Place → Shared × Place
unfolding tested lock_client retested marked close_client
client_move i s asking = (s, tested s.http_client)
client_move i s locking = lock_client i s s.client_lock
client_move i s retesting = (s, retested s.http_client)
client_move i s making = (record s { http_client = some s.made; made = s.made + 1 }, unlocking)
client_move i s unlocking = (record s { client_lock = none }, answering)
client_move i s answering = (s, answered s.http_client)
client_move i s (answered o) = (s, answered o)
client_move i s marking = (s, marked s.http_client)
client_move i s closing = (close_client s s.http_client, clearing)
client_move i s clearing = (record s { http_client = none; marks = s.marks + 1 }, cleared)
client_move i s cleared = (s, cleared)

pub record ClientSystem : Type 0 where
  pub shared : Shared
  pub place : ℕ → Place

-- Which threads mark the client; the others ask for it.
abbrev pub first_places : (ℕ → Bool) → ClientSystem
first_places marks = record {
  shared = one_client;
  place = λ i. if marks i then marking else asking;
}

abbrev pub set_place : (ℕ → Place) → ℕ → Place → ℕ → Place
set_place place i p j = if i == j then p else place j

unfoldable pub client_step : ClientSystem → ℕ → ClientSystem
unfolding client_move
client_step s i =
    let after = client_move i s.shared (s.place i) in
    record { shared = after.0; place = set_place s.place i after.1 }

unfoldable pub client_run : ClientSystem → List ℕ → ClientSystem
unfolding client_step
client_run s [] = s
client_run s (i ∷ is) = client_run (client_step s i) is
