-- ===== src/Answer/Memory.antt =====
-- A Kafka, a database and a gRPC in memory, and an encoding of the tokens, to run an answer on.
use golang_learning.Prelude.{
  All, GoString, as_inserted, MapOrder, is_empty, not, List, [], ◌∷◌, ◌++◌, Option, none, some,
  Bool, true, false, if◌then◌else◌, ◌≡◌, refl, sym, ap,
}
use golang_learning.Domain.{ChatRequest, TokenEvent, Result, ok}
use golang_learning.Publisher.{Json}
use golang_learning.Persist.{TokenBuffer}
use golang_learning.Store.Memory.{Table}
use golang_learning.Cache.Memory.{write, read, read-write, ◌>>=◌}
use golang_learning.StreamingWorker.{StreamToken}
use golang_learning.StreamTokens.{Remote}
use golang_learning.StreamTokens.Relay.{RemoteLaws}
use golang_learning.TokenServer.{TokenMessage}
use golang_learning.ChatStream.{Services}

-- A token as bytes: its strings and, for the last one, a mark.
abbrev pub value : TokenEvent → GoString
value t =
    write t.request_id
      (write t.session_id (write t.user_message (write t.delta (if t.done then 1 ∷ [] else []))))

abbrev pub json : Json
json = record {
  marshal_request = λ req. ok [];
  marshal_completed = λ completed. ok [];
  marshal_token = λ t. ok (value t);
}

abbrev pub decode : GoString → Option TokenEvent
decode s = read s >>= λ a. read a.1 >>= λ b. read b.1 >>= λ c. read c.1 >>= λ d. some (record {
  request_id = a.0;
  session_id = b.0;
  user_message = c.0;
  delta = d.0;
  done = not (is_empty d.1);
})

read_done : (a b c d : GoString) (done : Bool) → not (is_empty (if done then 1 ∷ [] else [])) ≡ done
read_done a b c d true = refl
read_done a b c d false = refl

decode-value : (t : TokenEvent) → decode (value t) ≡ some t
decode-value t =
    let flag : GoString = if t.done then 1 ∷ [] else [] in
    rw
      (
        read-write t.request_id (write t.session_id (write t.user_message (write t.delta flag))),
        read-write t.session_id (write t.user_message (write t.delta flag)),
        read-write t.user_message (write t.delta flag),
        read-write t.delta flag,
        read_done [] [] [] [] t.done,
      )
      refl

abbrev pub request : ChatRequest
request = record { request_id = 1 ∷ []; session_id = 2 ∷ []; content = 3 ∷ []; timestamp = 0 }

abbrev pub orders : MapOrder TokenBuffer
orders = as_inserted TokenBuffer

abbrev pub fresh : Table
fresh = record { broken = false; at_key = λ i k. none }

-- A network of one stream that keeps the messages since it was opened.
pub record Wire : Type 0 where
  pub log : List TokenMessage
  pub closed : Bool

abbrev pub network : Remote
network = record {
  World = Wire;
  Conn = GoString;
  Stream = Unit {0};
  get_callback = λ id w. (w, ok (6 ∷ []));
  new_client = λ addr secret w. (w, ok addr);
  open_stream = λ conn w. (record { log = []; closed = false }, ok tt);
  send = λ stream m w. (record w { log = w.log ++ m ∷ [] }, ok tt);
  close_and_recv = λ stream w. record w { closed = true };
}

log_of :
    {A : Type 0} {w w' : Wire} {a b : Result A}
    → ◌≡◌ {A = Wire × Result A} (w, a) (w', b)
    → w.log ≡ w'.log
log_of e = ap (λ (p : Wire × Result _). p.0.log) e

pub network_laws : RemoteLaws network
network_laws = record {
  sent = λ stream w. w.log;
  ended = λ stream w. w.closed;
  open_empty = λ conn stream w w' e. sym (log_of e);
  send_ok = λ stream m w w' e. sym (log_of e);
  close_keeps = λ stream w. refl;
  close_ends = λ stream w. refl;
}

abbrev pub stream_token : Option TokenEvent → Option StreamToken
stream_token none = none
stream_token (some t) = some (record { request_id = t.request_id; delta = t.delta; done = t.done })

abbrev pub services : Services
services = record {
  World = Unit {0};
  claim_owner = λ session_id user_id w. (w, ok true);
  set_callback = λ request_id addr w. (w, ok tt);
  publish_request = λ req w. (w, ok tt);
}

pub all_decode : (ts : List TokenEvent) → All (λ t. decode (value t) ≡ some t) ts
all_decode [] = tt
all_decode (t ∷ ts) = (decode-value t, all_decode ts)

pub all_stream :
    (ts : List TokenEvent)
    → All
        (λ t.
          stream_token (decode (value t))
          ≡ some (record { request_id = t.request_id; delta = t.delta; done = t.done }))
        ts
all_stream [] = tt
all_stream (t ∷ ts) = (rw (decode-value t) refl, all_stream ts)
