-- ===== src/Streaming/Tests.antt =====
-- Runs of a streamed request, and its theorems at concrete inputs.
use flow_proxy.Base.{
  ℕ, zero, suc, ◌<◌, ◌≡◌, refl, Bool, length, arith, false, none, List, [], ◌∷◌, ◌++◌, Text, Bytes,
  codes, has_text, text_eq, lookup, ok,
}
use flow_proxy.Streaming.Machine.{
  Response, sse_response, body_of, start, AccessLine, Event, worker_runs, main_runs, client_leaves,
  step, run,
}
use flow_proxy.Streaming.Machine.Measure.{left, weight, stage}
use flow_proxy.Streaming.Machine.Progress.{fair, request_ends, stream_completes}
use flow_proxy.Streaming.Machine.Client.{expected_client, client_prefix, client_complete}

-- The names below are in lower case already.
abbrev as_is : Text → Text
as_is t = t

abbrev pub plain : Response
plain = record {
  status_code = 200;
  reason_phrase = codes "OK";
  headers =
      (codes "content-type", codes "text/plain")
      ∷ (codes "transfer-encoding", codes "chunked")
      ∷ [];
  lines = [];
  chunks = (1 ∷ 2 ∷ []) ∷ [] ∷ (3 ∷ []) ∷ [];
  ending = none;
}

abbrev w1 : Event
w1 = worker_runs false 7

-- The worker runs to its end, with the main thread reading in between.
abbrev schedule : List Event
schedule =
    w1 ∷ w1 ∷ main_runs ∷ main_runs ∷ main_runs ∷ w1 ∷ w1 ∷ w1 ∷ w1 ∷ w1 ∷ main_runs ∷ main_runs
    ∷ w1 ∷ w1 ∷ main_runs ∷ main_runs ∷ w1 ∷ []

over : (run as_is (start (ok plain)) schedule).attached ≡ false
unfolding run step body_of sse_response has_text lookup
over = refl

stayed : (run as_is (start (ok plain)) schedule).cancel ≡ false
unfolding run step body_of sse_response has_text lookup
stayed = refl

client_complete_example :
    ((run as_is (start (ok plain)) schedule).front.client ≡ expected_client as_is (ok plain))
    × (line : AccessLine) × ((run as_is (start (ok plain)) schedule).access_log ≡ line ∷ [])
    × (line.bytes ≡ 3)
    × (line.status ≡ 200)
unfolding body_of sse_response has_text lookup
client_complete_example = client_complete as_is (ok plain) schedule over stayed

client_prefix_example :
    (more : List Bytes) × ((run as_is
          (start (ok plain))
          (w1 ∷ w1 ∷ main_runs ∷ client_leaves ∷ w1 ∷ main_runs ∷ [])).front.client
        ++ more
      ≡ expected_client as_is (ok plain))
client_prefix_example =
    client_prefix as_is (ok plain) (w1 ∷ w1 ∷ main_runs ∷ client_leaves ∷ w1 ∷ main_runs ∷ [])

-- So many turns of both threads.
abbrev turns : ℕ → List (Bool × ℕ)
turns zero = []
turns (suc n) = (false, 7) ∷ turns n

few_left : left (run as_is (start (ok plain)) []) < length (turns 27)
unfolding left weight stage run body_of sse_response has_text lookup
few_left = omega arith

request_ends_example : (run as_is (start (ok plain)) (fair (turns 27))).attached ≡ false
request_ends_example = request_ends as_is (ok plain) [] (turns 27) few_left

stream_completes_example :
    ((run as_is (start (ok plain)) (fair (turns 27))).front.client
      ≡ expected_client as_is (ok plain))
    × (line : AccessLine) × ((run as_is (start (ok plain)) (fair (turns 27))).access_log
        ≡ line ∷ [])
    × (line.bytes ≡ 3)
    × (line.status ≡ 200)
unfolding body_of sse_response has_text lookup
stream_completes_example = stream_completes as_is (ok plain) [] (turns 27) tt few_left
