-- ===== src/Streaming/Machine/Script.antt =====
-- What the worker puts and what the client is to see, with no word on the schedule.
use flow_proxy.Base.{
  ◌≡◌, ◌≢◌, refl, ◌∙◌, false, Option, none, some, List, [], ◌∷◌, ◌++◌, Text, Bytes, Exc, ok, err,
}
use flow_proxy.Streaming.Machine.{
  Item, response_headers, chunk, sentinel, Front, Upstream, headers_of, body_of, Worker, opening,
  told, reading, ending, last_write, finished, deliver, error_output,
}

abbrev pub first : Front
first = record {
  client = [];
  headers_sent = false;
  is_sse = false;
  status_code = 0;
  bytes_sent = 0;
}

pub append_nil_inv : (xs ys : List Item) → xs ++ ys ≡ [] → (xs ≡ []) × (ys ≡ [])
append_nil_inv [] ys h = (refl, h)
append_nil_inv (x ∷ xs) ys h = cc

-- What the worker puts for a body; empty chunks are passed over.
unfoldable pub chunk_items : List Bytes → List Item
chunk_items [] = sentinel ∷ []
chunk_items ([] ∷ rest) = chunk_items rest
chunk_items ((b ∷ bs) ∷ rest) = chunk (b ∷ bs) ∷ chunk_items rest

-- All that the worker puts, in order, when nobody stops it, and how it ends.
unfoldable pub script : Upstream → List Item
unfolding chunk_items
script (ok r) = response_headers (headers_of r) ∷ chunk_items (body_of r)
script (err e) = sentinel ∷ []

abbrev pub outcome : Upstream → Option Exc
outcome (ok r) = r.ending
outcome (err e) = some e

-- What the worker has still to put.
unfoldable pub remaining : Worker → List Item
remaining (opening u) = script u
remaining (told rest e) = chunk_items rest
remaining (reading rest e) = chunk_items rest
remaining ending = sentinel ∷ []
remaining last_write = []
remaining finished = []

-- The error recorded so far, against the one that the upstream ends with.
abbrev pub Failing : Option Exc → Worker → Option Exc → Type 0
Failing end (opening u) e = (e ≡ none) × (outcome u ≡ end)
Failing end (told rest x) e = (e ≡ none) × (x ≡ end)
Failing end (reading rest x) e = (e ≡ none) × (x ≡ end)
Failing end _ e = e ≡ end

-- Nothing stands behind a sentinel.
abbrev pub SentinelLast : List Item → Type 0
SentinelLast [] = Unit
SentinelLast (sentinel ∷ rest) = rest ≡ []
SentinelLast (_ ∷ rest) = SentinelLast rest

pub SentinelLast-chunk_items : (cs : List Bytes) → SentinelLast (chunk_items cs)
unfolding chunk_items
SentinelLast-chunk_items [] = refl
SentinelLast-chunk_items ([] ∷ rest) = SentinelLast-chunk_items rest
SentinelLast-chunk_items ((b ∷ bs) ∷ rest) = SentinelLast-chunk_items rest

pub SentinelLast-script : (u : Upstream) → SentinelLast (script u)
unfolding script
SentinelLast-script (ok r) = SentinelLast-chunk_items (body_of r)
SentinelLast-script (err e) = refl

pub behind_sentinel : (xs rest : List Item) → SentinelLast (xs ++ sentinel ∷ rest) → rest ≡ []
behind_sentinel [] rest h = h
behind_sentinel (sentinel ∷ []) rest h = cc
behind_sentinel (sentinel ∷ x ∷ xs) rest h = cc
behind_sentinel (response_headers x ∷ xs) rest h = behind_sentinel xs rest h
behind_sentinel (chunk x ∷ xs) rest h = behind_sentinel xs rest h

pub chunk_items-ne-nil : (cs : List Bytes) → chunk_items cs ≢ []
unfolding chunk_items
chunk_items-ne-nil [] q = cc
chunk_items-ne-nil ([] ∷ cs) q = chunk_items-ne-nil cs q
chunk_items-ne-nil ((b ∷ bs) ∷ cs) q = cc

pub done_worker :
    (end : Option Exc) (k : Worker) (e : Option Exc) → remaining k ≡ [] → Failing end k e → e ≡ end
unfolding remaining script chunk_items
done_worker end (opening (ok r)) e h f = cc
done_worker end (opening (err x)) e h f = cc
done_worker end (told rest x) e h f = absurd (chunk_items-ne-nil rest h)
done_worker end (reading rest x) e h f = absurd (chunk_items-ne-nil rest h)
done_worker end ending e h f = cc
done_worker end last_write e h f = f
done_worker end finished e h f = f

module _ (lower : Text → Text) where
  unfoldable pub deliver_all : Front → List Item → Front
  deliver_all f [] = f
  deliver_all f (x ∷ xs) = deliver_all (deliver lower f x) xs

  pub deliver_all-append :
      (f : Front) (xs ys : List Item) → deliver_all f (xs ++ ys) ≡ deliver_all (deliver_all f xs) ys
  unfolding deliver_all
  deliver_all-append f [] ys = refl
  deliver_all-append f (x ∷ xs) ys = deliver_all-append (deliver lower f x) xs ys

  -- The front when everything has been delivered, and all that the client then has.
  unfoldable pub final_front : Upstream → Front
  final_front u = deliver_all first (script u)

  unfoldable pub final_client : Upstream → List Bytes
  final_client u = (final_front u).client ++ error_output (final_front u) (outcome u)

  pub deliver_all-snoc :
      (f : Front) (xs : List Item) (x : Item)
      → deliver_all f (xs ++ x ∷ []) ≡ deliver lower (deliver_all f xs) x
  deliver_all-snoc f xs x = deliver_all-append f xs (x ∷ []) ∙ (unfold deliver_all in refl)
