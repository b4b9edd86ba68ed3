-- ===== src/ProcessServices/HttpClient.antt =====
-- The `httpx.Client` of the process: `get_http_client` and `mark_http_client_dirty`, each of them
-- run to its end before the next. A client is a number; what `close` raises is swallowed.
pub mod Threads
use flow_proxy.Base.{
  ℕ, ◌+◌, ◌<◌, ◌≡◌, ◌≢◌, refl, Option, none, some, some_inj, subst, List, [], ◌∷◌, ◌++◌, All, arith,
}

pub record Clients : Type 0 where
  pub http_client : Option ℕ
  pub made : ℕ
  pub closed : List ℕ

-- `_initialize` makes the first client.
abbrev pub first_client : Clients
first_client = record { http_client = some 0; made = 1; closed = [] }

ensured : Clients → Option ℕ → Clients
ensured s none = record s { http_client = some s.made; made = s.made + 1 }
ensured s (some c) = s

unfoldable pub get_http_client : Clients → Option ℕ × Clients
unfolding ensured
get_http_client s = let s' = ensured s s.http_client in (s'.http_client, s')

dirtied : Clients → Option ℕ → Clients
dirtied s none = s
dirtied s (some c) = record s { http_client = none; closed = c ∷ s.closed }

unfoldable pub mark_http_client_dirty : Clients → Clients
unfolding dirtied
mark_http_client_dirty s = dirtied s s.http_client

pub data ClientCall : Type 0 where
  ask : ClientCall
  dirty : ClientCall

unfoldable pub run_calls : Clients → List ClientCall → Clients
run_calls s [] = s
run_calls s (ask ∷ cs) = run_calls (get_http_client s).1 cs
run_calls s (dirty ∷ cs) = run_calls (mark_http_client_dirty s) cs

-- The client that is kept is not closed, and clients that will be made are new.
record IsOpen (s : Clients) : Type 0 where
  past : All (λ c. c < s.made) s.closed
  current : (c : ℕ) → s.http_client ≡ some c → (c < s.made) × All (λ d. d ≢ c) s.closed

first-IsOpen : IsOpen first_client
first-IsOpen = record { past = tt; current = λ c q. (let e = some_inj q in omega (arith, e), tt) }

older : (n : ℕ) (xs : List ℕ) → All (λ c. c < n) xs → All (λ c. c < n + 1) xs × All (λ d. d ≢ n) xs
older n [] h = (tt, tt)
older n (x ∷ xs) h =
    let (l, other) = older n xs h.1 in
    let below : x < n = h.0 in ((omega (arith, below), l), (λ e. omega (arith, below, e), other))

ensured-IsOpen :
    (s : Clients) (o : Option ℕ)
    → s.http_client ≡ o
    → IsOpen s
    → IsOpen (ensured s o) × ((c : ℕ) × ((ensured s o).http_client ≡ some c))
unfolding ensured
ensured-IsOpen s none e h =
    let (l, other) = older s.made s.closed h.past in
    (
      record {
        past = l;
        current = λ c q.
            let same : s.made ≡ c = some_inj q in
            (omega (arith, same), subst (λ x. All (λ d. d ≢ x) s.closed) same other);
      },
      (s.made, refl),
    )
ensured-IsOpen s (some c) e h = (h, (c, e))

dirtied-IsOpen : (s : Clients) (o : Option ℕ) → s.http_client ≡ o → IsOpen s → IsOpen (dirtied s o)
unfolding dirtied
dirtied-IsOpen s none e h = h
dirtied-IsOpen s (some c) e h = record { past = ((h.current c e).0, h.past); current = λ d q. cc }

run_calls-IsOpen : (cs : List ClientCall) (s : Clients) → IsOpen s → IsOpen (run_calls s cs)
unfolding run_calls get_http_client mark_http_client_dirty
run_calls-IsOpen [] s h = h
run_calls-IsOpen (ask ∷ cs) s h = run_calls-IsOpen cs _ (ensured-IsOpen s s.http_client refl h).0
run_calls-IsOpen (dirty ∷ cs) s h = run_calls-IsOpen cs _ (dirtied-IsOpen s s.http_client refl h)

-- After any calls of the two, one after the other, `get_http_client` gives a client, and one that
-- was never closed.
pub get_http_client-IsOpen :
    (cs : List ClientCall)
    → (c : ℕ) × ((get_http_client (run_calls first_client cs)).0 ≡ some c)
      × All (λ d. d ≢ c) (get_http_client (run_calls first_client cs)).1.closed
unfolding get_http_client
get_http_client-IsOpen cs =
    let s = run_calls first_client cs in
    let (h, (c, given)) =
      ensured-IsOpen s s.http_client refl (run_calls-IsOpen cs first_client first-IsOpen) in
    (c, given, (h.current c given).1)

-- `reset`, for the instance of the process, if there is one: its client, where it has one, is
-- closed, and there is no instance afterwards. What was closed is the second part.
closed_by : Option ℕ → List ℕ → List ℕ
closed_by none closed = closed
closed_by (some c) closed = c ∷ closed

pub reset_services : Option Clients → List ℕ → Option Clients × List ℕ
unfolding closed_by
reset_services none closed = (none, closed)
reset_services (some s) closed = (none, closed_by s.http_client (s.closed ++ closed))
