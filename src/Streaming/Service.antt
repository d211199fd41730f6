-- ===== src/Streaming/Service.antt =====
-- src/streaming/streaming.service.ts and the guard of its controller. An HTTP response is a number.
-- What `register` creates for one call (the subject with its subscription, the timers and the close
-- handler, all of which keep the stream's name and the response) is a registration. rxjs is a
-- parameter: a subject is what `Rx` says. `wire` lists what has been written to the responses.
pub mod Invariant
pub mod Calls
pub mod Reach
pub mod Tests
use ai_content_platform.Prelude.{
  ℕ, suc, String, Bool, true, false, Option, none, some, List, [], ◌∷◌, ◌++◌, nat_eq, if◌then◌else◌,
  lookup, insert, remove,
}
use ai_content_platform.Exceptions.{
  Thrown, error, stream_not_found, contract_violation, Settled, resolved, rejected,
}
use ai_content_platform.Contracts.{Zod, passes}
use ai_content_platform.Streaming.Events.{SseEvent, heartbeat, stream_error, sse_event_checks}

-- A subject with one subscriber, and whether an event reaches that subscriber.
pub record Rx (S : Type 0) : Type 0 where
  pub new_subject : S
  pub stop : S → S
  pub unsubscribe : S → S
  pub delivers : S → Bool

pub data Frame (N : Type 0) : Type 0 where
  headers : Frame N
  event : SseEvent N → Frame N
  done : Frame N

pub record StreamEntry : Type 0 where
  pub registration : ℕ
  pub res : ℕ
  pub cancelled_at : Option ℕ

pub record Registration (S : Type 0) : Type 0 where
  pub stream_id : String
  pub res : ℕ
  pub subject : S
  pub heartbeat_timer : Bool
  pub timeout_timer : Bool

pub record Service (N S : Type 0) : Type 0 where
  pub streams : List (String × StreamEntry)
  pub registrations : ℕ → Registration S
  pub next : ℕ
  pub wire : List (ℕ × Frame N)

abbrev pub assign {ℓ} : {A : Type ℓ} → (ℕ → A) → ℕ → A → ℕ → A
assign f k a j = if nat_eq k j then a else f j

module _ {N S : Type 0} where
  unfoldable pub write : ℕ → Frame N → Service N S → Service N S
  write res frame s = record s { wire = s.wire ++ (res, frame) ∷ [] }

  unfoldable pub is_active : String → Service N S → Bool
  is_active id s = elim (lookup id s.streams) [ none ↦ false | some e ↦ true ]

abbrev pub stopped_timers : {S : Type 0} → Rx S → Registration S → Registration S
stopped_timers rx g = record g {
  heartbeat_timer = false;
  timeout_timer = false;
  subject = rx.unsubscribe g.subject;
}

module _ {N S : Type 0} (rx : Rx S) where
  unfoldable pub register : String → ℕ → Service N S → Service N S
  unfolding write
  register id res s =
      let t = write res headers s in
      record t {
        streams =
            insert id (record { registration = s.next; res = res; cancelled_at = none }) s.streams;
        registrations = assign s.registrations s.next (record {
          stream_id = id;
          res = res;
          subject = rx.new_subject;
          heartbeat_timer = true;
          timeout_timer = true;
        });
        next = suc s.next;
      }

  -- The controller's `openStream`: a second response only gets its headers.
  unfoldable pub open_stream : String → ℕ → Service N S → Service N S
  open_stream id res s = if is_active id s then write res headers s else register id res s

  cleanup_entry : String → Option StreamEntry → Service N S → Service N S
  cleanup_entry id none s = s
  cleanup_entry id (some e) s = record s {
    streams = remove id s.streams;
    registrations =
        assign s.registrations e.registration (stopped_timers rx (s.registrations e.registration));
  }

  unfoldable pub cleanup : String → Service N S → Service N S
  unfolding cleanup_entry
  cleanup id s = cleanup_entry id (lookup id s.streams) s

  close_entry : String → Option StreamEntry → Service N S → Service N S
  unfolding cleanup
  close_entry id none s = s
  close_entry id (some e) s = cleanup id (write e.res done s)

  unfoldable pub close : String → Service N S → Service N S
  unfolding close_entry
  close id s = close_entry id (lookup id s.streams) s

  -- `subject.error(err)` of a registration: the subscriber writes the error and closes the stream
  -- of its name. `shown` is `String(err)`.
  unfoldable pub subject_error : ℕ → String → Service N S → Service N S
  unfolding write close
  subject_error r shown s =
      let g = s.registrations r in
      let failed =
        close g.stream_id
          (write g.res (event (record { payload = stream_error shown; job_id = g.stream_id })) s) in
      let t = if rx.delivers g.subject then failed else s in
      record t {
        registrations =
            assign t.registrations r
              (record (t.registrations r) { subject = rx.stop (t.registrations r).subject });
      }

  module _ (z : Zod N) where
    deliver : Bool → ℕ → SseEvent N → Service N S → Service N S
    unfolding write
    deliver true res e s = write res (event e) s
    deliver false res e s = s

    emit_to : Option StreamEntry → SseEvent N → Service N S → Settled (Unit {0}) × Service N S
    unfolding deliver
    emit_to none e s = (resolved tt, s)
    emit_to (some entry) e s =
        if passes (sse_event_checks z e)
        then (
          resolved tt,
          deliver (rx.delivers (s.registrations entry.registration).subject) entry.res e s,
        )
        else (rejected (contract_violation "SSEEventV1" (z.report (sse_event_checks z e))), s)

    unfoldable pub emit : String → SseEvent N → Service N S → Settled (Unit {0}) × Service N S
    unfolding emit_to
    emit id e s = emit_to (lookup id s.streams) e s

  cancel_entry : String → ℕ → Option StreamEntry → Service N S → Settled (Unit {0}) × Service N S
  unfolding subject_error
  cancel_entry id now none s = (rejected (stream_not_found id), s)
  cancel_entry id now (some e) s = (
    resolved tt,
    subject_error e.registration "Error: Stream cancelled by client"
        (record s { streams = insert id (record e { cancelled_at = some now }) s.streams }),
  )

  unfoldable pub cancel : String → ℕ → Service N S → Settled (Unit {0}) × Service N S
  unfolding cancel_entry
  cancel id now s = cancel_entry id now (lookup id s.streams) s

  -- The heartbeat interval of a registration fires.
  unfoldable pub heartbeat_fires : ℕ → Service N S → Service N S
  unfolding write
  heartbeat_fires r s =
      let g = s.registrations r in
      if g.heartbeat_timer
      then write g.res (event (record { payload = heartbeat; job_id = g.stream_id })) s
      else s

  -- Its timeout fires, once.
  unfoldable pub timeout_fires : ℕ → Service N S → Service N S
  unfolding subject_error
  timeout_fires r s =
      let g = s.registrations r in
      let spent = record s {
        registrations = assign s.registrations r (record g { timeout_timer = false });
      } in
      if g.timeout_timer then subject_error r "Error: Stream timeout" spent else s

  -- The response of a registration emits `close`.
  unfoldable pub response_closes : ℕ → Service N S → Service N S
  unfolding cleanup
  response_closes r s = cleanup (s.registrations r).stream_id s
