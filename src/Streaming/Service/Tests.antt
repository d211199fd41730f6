-- ===== src/Streaming/Service/Tests.antt =====
-- The streaming service at a concrete rxjs and zod: the theorems applied, and runs by evaluation.
use ai_content_platform.Prelude.{
  ℕ, ◌≡◌, refl, Bool, true, false, not, none, some, [], ◌∷◌, leb, lookup, insert, remove, arith,
  str_length, ◌==◌,
}
use ai_content_platform.Exceptions.{contract_violation, stream_not_found, rejected}
use ai_content_platform.Contracts.{Zod}
use ai_content_platform.Streaming.Events.{SseEvent, token, sse_event_checks}
use ai_content_platform.Streaming.Service.{
  Rx, headers, event, done, Service, write, is_active, register, open_stream, cleanup, close,
  subject_error, emit, cancel, response_closes,
}
use ai_content_platform.Streaming.Service.Invariant.{IsRx, Inv}
use ai_content_platform.Streaming.Service.Reach.{
  here, next, opens, closes, Reach-Inv, close_silences, late_close_kills,
}

abbrev rx : Rx Bool
rx = record { new_subject = true; stop = λ s. false; unsubscribe = λ s. false; delivers = λ s. s }

rx-IsRx : IsRx rx
rx-IsRx = record { fresh_delivers = refl; stopped_silent = λ x. refl; left_silent = λ x. refl }

abbrev pub zod : Zod ℕ
zod = record {
  string_min = λ n s. leb n (str_length s);
  string_max = λ n s. leb (str_length s) n;
  string_datetime = λ s. not (s == "");
  string_semver = λ s. not (s == "");
  array_min = λ n k. leb n k;
  array_max = λ n k. leb k n;
  number_min = λ n k. leb n k;
  number_max = λ n k. leb k n;
  int_min = λ n k. leb n k;
  int_max = λ n k. leb k n;
  report = λ l. "issues";
}

abbrev Svc : Type 0
Svc = Service ℕ Bool

abbrev nothing : Svc
nothing = record {
  streams = [];
  registrations = λ r. record {
    stream_id = "";
    res = 0;
    subject = false;
    heartbeat_timer = false;
    timeout_timer = false;
  };
  next = 0;
  wire = [];
}

nothing-Inv : Inv rx nothing
unfolding lookup
nothing-Inv = record { known = λ id e h. cc; owned = λ r lt h. cc }

-- The stream of job "j" is opened, closed, and opened again by a new response before the old
-- response has closed.
abbrev reopened : Svc
reopened = open_stream rx "j" 2 (close rx "j" (open_stream rx "j" 1 nothing))

serving : Unit {0}
unfolding open_stream register close cleanup write is_active emit cancel subject_error
    response_closes sse_event_checks lookup insert remove
serving = tt

abbrev hi : SseEvent ℕ
hi = record { payload = token "hi"; job_id = "j" }

reopened_streams :
    lookup "j" reopened.streams ≡ some (record { registration = 1; res = 2; cancelled_at = none })
unfolding serving
reopened_streams = refl

reopened_emits :
    (emit rx zod "j" hi reopened).1.wire
    ≡ (1, headers) ∷ (1, done) ∷ (2, headers) ∷ (2, event hi) ∷ []
unfolding serving
reopened_emits = refl

empty_id_blocked :
    (emit rx zod "j" (record { payload = token "hi"; job_id = "" }) reopened).0
    ≡ rejected (contract_violation "SSEEventV1" "issues")
unfolding serving
empty_id_blocked = refl

cancel_twice : (cancel rx "j" 5 (cancel rx "j" 4 reopened).1).0 ≡ rejected (stream_not_found "j")
unfolding serving
cancel_twice = refl

reopened-Inv : Inv rx reopened
reopened-Inv =
    Reach-Inv rx zod {s = nothing} {t = reopened} rx-IsRx nothing-Inv
      (next (next (next here (opens "j" 1)) (closes "j")) (opens "j" 2))

Reach-Inv_example : Inv rx reopened
Reach-Inv_example =
    Reach-Inv rx zod {s = nothing} {t = reopened} rx-IsRx nothing-Inv
      (next (next (next here (opens "j" 1)) (closes "j")) (opens "j" 2))

close_silences_example : ((close rx "j" reopened).registrations 0).heartbeat_timer ≡ false
unfolding serving
close_silences_example = close_silences rx zod "j" 0 reopened reopened-Inv (omega arith) refl

late_close_kills_example : is_active "j" (response_closes rx 0 reopened) ≡ false
unfolding serving
late_close_kills_example =
    (late_close_kills rx zod "j" 0 (record { registration = 1; res = 2; cancelled_at = none })
      reopened refl reopened_streams (omega arith)).1
