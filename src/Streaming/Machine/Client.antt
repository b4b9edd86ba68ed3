-- ===== src/Streaming/Machine/Client.antt =====
-- What the client has at any moment of any schedule, and when the stream has ended.
use mathlib.Core.Path.{ap₂}
use flow_proxy.Base.{
  ℕ, ◌+◌, ◌≡◌, refl, ap, sym, ◌∙◌, Bool, true, false, Option, none, some, List, [], ◌∷◌, ◌++◌,
  append-nil, append_assoc, Text, Bytes, codes, length, Exc, ok, err, arith,
}
use flow_proxy.Streaming.Output.{response_head, sse_error_event, error_response}
use flow_proxy.Streaming.Machine.{
  Item, response_headers, chunk, sentinel, Front, Response, Upstream, sse_response, headers_of,
  body_of, World, start, AccessLine, deliver, error_output, Event, run,
}
use flow_proxy.Streaming.Machine.Script.{
  first, chunk_items, script, outcome, deliver_all, deliver_all-append, final_front, final_client,
}
use flow_proxy.Streaming.Machine.Stages.{live, cut, done}
use flow_proxy.Streaming.Machine.Delivery.{run-Stage}

abbrev pub non_empty : List Bytes → List Bytes
non_empty [] = []
non_empty ([] ∷ rest) = non_empty rest
non_empty ((b ∷ bs) ∷ rest) = (b ∷ bs) ∷ non_empty rest

abbrev pub total : List Bytes → ℕ
total [] = 0
total (c ∷ rest) = length c + total rest

-- What follows the body when the upstream fails after the headers.
abbrev pub error_tail : Bool → Option Exc → List Bytes
error_tail is_sse none = []
error_tail true (some e) = sse_error_event ∷ []
error_tail false (some e) = []

module _ (lower : Text → Text) where
  -- The whole of what a client is to be sent.
  abbrev pub expected_client : Upstream → List Bytes
  expected_client (ok r) =
      response_head lower (headers_of r)
      ++ (non_empty (body_of r) ++ error_tail (sse_response r) r.ending)
  expected_client (err e) = error_response 503 (codes "Upstream error") ∷ []

  front_eq :
      (f : Front) {c d : List Bytes} {m n : ℕ}
      → c ≡ d
      → m ≡ n
      → ◌≡◌ {A = Front}
          (record f { client = c; bytes_sent = m })
          (record f { client = d; bytes_sent = n })
  front_eq f p q = λ i. record f { client = p i; bytes_sent = q i }

  chunks_delivered :
      (f : Front) (cs : List Bytes)
      → deliver_all lower f (chunk_items cs)
        ≡ record f { client = f.client ++ non_empty cs; bytes_sent = f.bytes_sent + total cs }
  unfolding deliver_all chunk_items deliver
  chunks_delivered f [] = front_eq f (sym (append-nil f.client)) (omega arith)
  chunks_delivered f ([] ∷ cs) = chunks_delivered f cs ∙ front_eq f refl (omega arith)
  chunks_delivered f ((b ∷ bs) ∷ cs) =
      chunks_delivered (deliver lower f (chunk (b ∷ bs))) cs
      ∙ front_eq f (append_assoc f.client ((b ∷ bs) ∷ []) (non_empty cs)) (omega arith)

  final_front_ok :
      (r : Response)
      → final_front lower (ok r) ≡ record {
        client = response_head lower (headers_of r) ++ non_empty (body_of r);
        headers_sent = true;
        is_sse = sse_response r;
        status_code = r.status_code;
        bytes_sent = 0 + total (body_of r);
      }
  unfolding final_front script deliver_all deliver headers_of
  final_front_ok r =
      chunks_delivered (deliver lower first (response_headers (headers_of r))) (body_of r)

  tail_lem :
      (f : Front) (s : Bool) (e : Option Exc)
      → f.headers_sent ≡ true
      → f.is_sse ≡ s
      → error_output f e ≡ error_tail s e
  unfolding error_output
  tail_lem f s none h k = refl
  tail_lem f true (some e) h k = rw (h, k) refl
  tail_lem f false (some e) h k = rw (h, k) refl

  final_client_lem : (u : Upstream) → final_client lower u ≡ expected_client u
  unfolding final_client
  final_client_lem (err e) = unfold final_front script deliver_all deliver error_output in refl
  final_client_lem (ok r) =
      let f = final_front_ok r in
      ap₂ ◌++◌ (ap (λ (x : Front). x.client) f) (
        tail_lem (final_front lower (ok r)) (sse_response r) r.ending
          (ap (λ (x : Front). x.headers_sent) f) (ap (λ (x : Front). x.is_sse) f))
      ∙ append_assoc (response_head lower (headers_of r)) (non_empty (body_of r)) _

  client-deliver_all :
      (f : Front) (xs : List Item)
      → (more : List Bytes) × ((deliver_all lower f xs).client ≡ f.client ++ more)
  unfolding deliver_all deliver
  client-deliver_all f [] = ([], sym (append-nil f.client))
  client-deliver_all f (response_headers h ∷ xs) =
      let (more, e) = client-deliver_all (deliver lower f (response_headers h)) xs in
      (response_head lower h ++ more, e ∙ append_assoc f.client (response_head lower h) more)
  client-deliver_all f (chunk c ∷ xs) =
      let (more, e) = client-deliver_all (deliver lower f (chunk c)) xs in
      (c ∷ more, e ∙ append_assoc f.client (c ∷ []) more)
  client-deliver_all f (sentinel ∷ xs) = client-deliver_all f xs

  -- A part of the script shows a part of what the client is to be sent.
  part_shown :
      (u : Upstream) (taken rest : List Item)
      → taken ++ rest ≡ script u
      → (more : List Bytes) × ((deliver_all lower first taken).client ++ more ≡ expected_client u)
  unfolding final_front final_client
  part_shown u taken rest e =
      let (more, q) = client-deliver_all (deliver_all lower first taken) rest in
      let all = sym (deliver_all-append lower first taken rest) ∙ ap (deliver_all lower first) e in
      (
        more ++ error_output (final_front lower u) (outcome u),
        sym (append_assoc (deliver_all lower first taken).client more _)
            ∙ ap (λ z. z ++ error_output (final_front lower u) (outcome u))
                (sym q ∙ ap (λ (f : Front). f.client) all)
            ∙ final_client_lem u,
      )

  -- At every moment of every schedule, also when the client leaves or the worker's descriptor
  -- number is reused, what was queued to the client is a beginning of the whole response: the
  -- head, the non-empty chunks in order, and what an upstream failure adds.
  pub client_prefix :
      (u : Upstream) (es : List Event)
      → (more : List Bytes) × ((run lower (start u) es).front.client ++ more ≡ expected_client u)
  client_prefix u es = elim (run-Stage lower u es) [
    | live v ↦ shown (v.taken) _ v.shown v.flow
    | cut v ↦ shown v.taken v.more v.shown v.flow
    | done v ↦ ([], append-nil w.front.client ∙ v.sent ∙ final_client_lem u)
  ]
    where
      w : World
      w = run lower (start u) es

      shown :
          (taken rest : List Item)
          → w.front ≡ deliver_all lower first taken
          → taken ++ rest ≡ script u
          → (more : List Bytes) × (w.front.client ++ more ≡ expected_client u)
      shown taken rest s e =
          let (more, q) = part_shown u taken rest e in
          (more, ap (λ (f : Front). f.client ++ more) s ∙ q)

  -- What the access log of a stream that came to its end says.
  abbrev pub expected_bytes : Upstream → ℕ
  expected_bytes (ok r) = total (body_of r)
  expected_bytes (err e) = 0

  abbrev pub expected_status : Upstream → ℕ
  expected_status (ok r) = r.status_code
  expected_status (err e) = 0

  logged_lem :
      (u : Upstream)
      → ((final_front lower u).bytes_sent ≡ expected_bytes u)
        × ((final_front lower u).status_code ≡ expected_status u)
  logged_lem (err e) = unfold final_front script deliver_all deliver in (refl, refl)
  logged_lem (ok r) = (
    ap (λ (f : Front). f.bytes_sent) (final_front_ok r) ∙ omega arith,
    ap (λ (f : Front). f.status_code) (final_front_ok r),
  )

  -- Where the request is over and the client never left, the client was queued the whole response
  -- and the access log has one line, with the size of the body and the upstream's status.
  pub client_complete :
      (u : Upstream) (es : List Event)
      → (run lower (start u) es).attached ≡ false
      → (run lower (start u) es).cancel ≡ false
      → ((run lower (start u) es).front.client ≡ expected_client u)
        × (line : AccessLine) × ((run lower (start u) es).access_log ≡ line ∷ [])
        × (line.bytes ≡ expected_bytes u)
        × (line.status ≡ expected_status u)
  client_complete u es over stayed = elim (run-Stage lower u es) [
    | live v ↦ cc (v.attached, over)
    | cut v ↦ cc (v.cancelled, stayed)
    | done v ↦
        let (bytes, status) = logged_lem u in
        (
          v.sent ∙ final_client_lem u,
          v.logged.0,
          v.logged.1,
          v.logged.2 ∙ bytes,
          v.logged.3 ∙ status,
        )
  ]
