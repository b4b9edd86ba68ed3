-- ===== src/Streaming/Machine.antt =====
-- flow_proxy_plugin/plugins/web_server_plugin.py: one streamed request, as steps of the worker
-- thread and of the main thread in any order. A step is one queue operation, one write to the
-- pipe, or one close; the event loop calls `read_from_descriptors` when the pipe is readable.
pub mod Script
pub mod Stages
pub mod MainThread
pub mod Delivery
pub mod Client
pub mod Awake
pub mod Measure
pub mod Progress
use flow_proxy.Base.{
  ℕ, zero, suc, ◌+◌, ◌-◌, ◌<◌, Bool, true, false, ◌&&◌, Option, none, some, List, [], ◌∷◌, ◌++◌,
  map, Text, Bytes, codes, text_eq, lookup, length, ltb, has_text, if◌then◌else◌, Exc, ExcClass,
  is_transport_error, Result, ok, err,
}
use flow_proxy.Streaming.Output.{
  ResponseHeaders, response_head, encode_sse_line, sse_error_event, error_response,
}

pub data Item : Type 0 where
  response_headers : ResponseHeaders → Item
  chunk : Bytes → Item
  sentinel : Item

-- What only the main thread writes, with all that was queued to `self.client`.
pub record Front : Type 0 where
  pub client : List Bytes
  pub headers_sent : Bool
  pub is_sse : Bool
  pub status_code : ℕ
  pub bytes_sent : ℕ

-- What the worker writes before the sentinel.
pub record Back : Type 0 where
  pub error : Option Exc
  pub end_reason : Text
  pub ttfb : Option ℕ

-- What httpx gives for the request: the header names in lower case, the lines of `iter_lines` or
-- the chunks of `iter_bytes`, and what the iteration or the closing raises at the end.
pub record Response : Type 0 where
  pub status_code : ℕ
  pub reason_phrase : Text
  pub headers : List (Text × Text)
  pub lines : List Text
  pub chunks : List Bytes
  pub ending : Option Exc

-- Opening the stream gives a response or raises.
abbrev pub Upstream : Type 0
Upstream = Result Response

or_empty : Option Text → Text
or_empty none = []
or_empty (some t) = t

-- `"text/event-stream" in response.headers.get("content-type", "")`
unfoldable pub sse_response : Response → Bool
unfolding or_empty
sse_response r =
    has_text (or_empty (lookup (codes "content-type") r.headers)) (codes "text/event-stream")

unfoldable pub headers_of : Response → ResponseHeaders
headers_of r = record {
  status_code = r.status_code;
  reason_phrase = r.reason_phrase;
  headers = r.headers;
  is_sse = sse_response r;
}

-- What the loop of the worker goes through.
unfoldable pub body_of : Response → List Bytes
body_of r = if sse_response r then map encode_sse_line r.lines else r.chunks

-- Where the worker stands; `told` has put an item and has yet to write its byte to the pipe.
pub data Worker : Type 0 where
  opening : Upstream → Worker
  told : List Bytes → Option Exc → Worker
  reading : List Bytes → Option Exc → Worker
  ending : Worker
  last_write : Worker
  finished : Worker

-- Where the main thread stands with this request: in the event loop, in the loop of
-- `read_from_descriptors`, or in the `join` of `_reset_request_state`.
pub data Phase : Type 0 where
  idle draining joining : Phase

pub data Level : Type 0 where
  info warning : Level

-- The access log line of a request.
pub record AccessLine : Type 0 where
  pub level : Level
  pub status : ℕ
  pub first_byte : Option ℕ
  pub bytes : ℕ
  pub end : Text

pub record World : Type 0 where
  pub front : Front
  pub back : Back
  pub chunk_queue : List Item
  pub cancel : Bool
  -- `_streaming_state` is this request's.
  pub attached : Bool
  -- The two descriptors are open; they are closed together.
  pub pipe_open : Bool
  pub notifications : ℕ
  -- Bytes written to a descriptor that no longer is this pipe's.
  pub stray : ℕ
  pub phase : Phase
  pub worker : Worker
  pub access_log : List AccessLine

abbrev pub start : Upstream → World
start u = record {
  front = record {
    client = [];
    headers_sent = false;
    is_sse = false;
    status_code = 0;
    bytes_sent = 0;
  };
  back = record { error = none; end_reason = []; ttfb = none };
  chunk_queue = [];
  cancel = false;
  attached = true;
  pipe_open = true;
  notifications = 0;
  stray = 0;
  phase = idle;
  worker = opening u;
  access_log = [];
}

-- The worker's `except` clauses, in their order.
pub reason_for : ExcClass → Text → Text
reason_for ExcClass.remote_protocol_error old = codes "remote_closed"
reason_for ExcClass.connect_error old = codes "connect_error"
reason_for ExcClass.transport_error old = codes "transport_error"
reason_for cls old = old

pub record_error : Back → Exc → Back
unfolding reason_for
record_error b e = record b { error = some e; end_reason = reason_for e.cls b.end_reason }

-- `_maybe_record_ttfb`
pub record_ttfb : Back → Option ℕ → ℕ → Back
record_ttfb b none elapsed = record b { ttfb = some elapsed }
record_ttfb b (some t) elapsed = b

pub put : World → Item → World
put w item = record w { chunk_queue = w.chunk_queue ++ item ∷ [] }

-- `os.write(state.pipe_w, …)`. On a closed descriptor it raises, unless the number was given to
-- another file in the meantime: `reused` says so.
pub write : Bool → World → Worker → Worker → World
write reused w done raised =
    if w.pipe_open
    then record w { notifications = w.notifications + 1; worker = done }
    else if reused
    then record w { stray = w.stray + 1; worker = done }
    else record w { worker = raised }

pub take_chunk : ℕ → World → Bytes → List Bytes → Option Exc → World
unfolding put record_ttfb
take_chunk elapsed w [] rest e = record w { worker = reading rest e }
take_chunk elapsed w (b ∷ bs) rest e = record (put w (chunk (b ∷ bs))) {
  back = record_ttfb w.back w.back.ttfb elapsed;
  worker = told rest e;
}

pub work : Bool → ℕ → World → Worker → World
unfolding put write take_chunk record_error
work reused elapsed w (opening (ok r)) = record (put w (response_headers (headers_of r))) {
  worker = told (body_of r) r.ending;
}
work reused elapsed w (opening (err e)) = record w { back = record_error w.back e; worker = ending }
work reused elapsed w (told rest e) = write reused w (reading rest e) ending
work reused elapsed w (reading [] none) = record w { worker = ending }
work reused elapsed w (reading [] (some e)) = record w {
  back = record_error w.back e;
  worker = ending;
}
work reused elapsed w (reading (c ∷ rest) e) =
    if w.cancel then record w { worker = ending } else take_chunk elapsed w c rest e
work reused elapsed w ending = record (put w sentinel) { worker = last_write }
work reused elapsed w last_write = write reused w finished finished
work reused elapsed w finished = w

-- A step of `_streaming_worker`.
unfoldable pub worker_step : Bool → ℕ → World → World
unfolding work
worker_step reused elapsed w = work reused elapsed w w.worker

module _ (lower : Text → Text) where
  -- `read_from_descriptors` on one item that is no sentinel.
  unfoldable pub deliver : Front → Item → Front
  deliver f (response_headers h) = record f {
    client = f.client ++ response_head lower h;
    headers_sent = true;
    is_sse = h.is_sse;
    status_code = h.status_code;
  }
  deliver f (chunk c) = record f {
    client = f.client ++ c ∷ [];
    bytes_sent = f.bytes_sent + length c;
  }
  deliver f sentinel = f

pub error_output : Front → Option Exc → List Bytes
error_output f none = []
error_output f (some e) =
    if f.headers_sent
    then (if f.is_sse then sse_error_event ∷ [] else [])
    else error_response 503 (codes "Upstream error") ∷ []

pub end_of : Back → Option Exc → Text
end_of b none = codes "ok"
end_of b (some e) = if is_transport_error e.cls then b.end_reason else codes "worker_error"

pub level_of : Front → Option Exc → Level
level_of f none = if ltb f.status_code 400 then info else warning
level_of f (some e) = warning

pub close_line : Front → Back → AccessLine
unfolding end_of level_of
close_line f b = record {
  level = level_of f b.error;
  status = f.status_code;
  first_byte = b.ttfb;
  bytes = f.bytes_sent;
  end = end_of b b.error;
}

-- `_finish_stream`
pub finish : World → World
unfolding error_output close_line
finish w = record w {
  attached = false;
  pipe_open = false;
  phase = idle;
  front = record w.front { client = w.front.client ++ error_output w.front w.back.error };
  access_log = w.access_log ++ close_line w.front w.back ∷ [];
}

-- The end of `_reset_request_state`, after the join returned or timed out.
pub abandon : World → World
abandon w = record w {
  attached = false;
  pipe_open = false;
  phase = idle;
  access_log =
      w.access_log
      ++ record {
        level = info;
        status = w.front.status_code;
        first_byte = w.back.ttfb;
        bytes = w.front.bytes_sent;
        end = codes "client_disconnected";
      }
        ∷ [];
}

module _ (lower : Text → Text) where
  pub take_item : World → List Item → World
  unfolding finish deliver
  take_item w [] = record w { phase = idle }
  take_item w (sentinel ∷ rest) = finish (record w { chunk_queue = rest })
  take_item w (item ∷ rest) = record w { chunk_queue = rest; front = deliver lower w.front item }

  pub main_in : World → Phase → World
  unfolding take_item abandon
  main_in w idle =
      if w.attached && ltb 0 w.notifications
      then record w { notifications = w.notifications - 256; phase = draining }
      else w
  main_in w draining = take_item w w.chunk_queue
  main_in w joining = abandon w

  -- A step of the main thread; in the event loop it enters `read_from_descriptors` when the pipe is
  -- registered and readable.
  unfoldable pub main_step : World → World
  unfolding main_in
  main_step w = main_in w w.phase

pub disconnect_in : World → Phase → World
disconnect_in w idle = if w.attached then record w { cancel = true; phase = joining } else w
disconnect_in w phase = w

-- The client goes away: `_reset_request_state` up to the join.
unfoldable pub disconnect : World → World
unfolding disconnect_in
disconnect w = disconnect_in w w.phase

-- What the scheduler lets happen next; the worker's step has the state of the descriptor number
-- and the time since the start.
pub data Event : Type 0 where
  worker_runs : Bool → ℕ → Event
  main_runs : Event
  client_leaves : Event

module _ (lower : Text → Text) where
  unfoldable pub step : World → Event → World
  unfolding worker_step main_step disconnect
  step w (worker_runs reused elapsed) = worker_step reused elapsed w
  step w main_runs = main_step lower w
  step w client_leaves = disconnect w

  unfoldable pub run : World → List Event → World
  run w [] = w
  run w (e ∷ es) = run (step w e) es
