-- ===== src/Streaming/Service/Reach.antt =====
-- The service under any interleaving of requests, pipeline calls, timers and disconnects.
use ai_content_platform.Prelude.{
  ℕ, ◌<◌, String, ◌≡◌, ◌≢◌, refl, sym, subst, true, false, none, some, lookup, Bool-cases, inl, inr,
  if◌then◌else◌,
}
use ai_content_platform.Exceptions.{contract_violation, resolved, rejected}
use ai_content_platform.Contracts.{Zod, passes}
use ai_content_platform.Streaming.Events.{SseEvent, sse_event_checks}
use ai_content_platform.Streaming.Service.{
  Rx, event, StreamEntry, Service, write, is_active, open_stream, cleanup, close, deliver, emit_to,
  emit, cancel, heartbeat_fires, timeout_fires, response_closes,
}
use ai_content_platform.Streaming.Service.Invariant.{
  IsRx, Inv, cleanup-Inv, close-Inv, cleanup-gone, close-gone,
}
use ai_content_platform.Streaming.Service.Calls.{
  open_stream-Inv, emit-Inv, cancel-Inv, heartbeat_fires-Inv, timeout_fires-Inv,
}

module _ {N S : Type 0} (rx : Rx S) (z : Zod N) where
  -- What can happen to the service: calls, timers that fire and responses that close.
  pub data Step (s : Service N S) : Service N S → Type 0 where
    opens : (id : String) (res : ℕ) → Step s (open_stream rx id res s)
    emits : (id : String) (e : SseEvent N) → Step s (emit rx z id e s).1
    cancels : (id : String) (now : ℕ) → Step s (cancel rx id now s).1
    closes : (id : String) → Step s (close rx id s)
    beats : (r : ℕ) → Step s (heartbeat_fires rx r s)
    times_out : (r : ℕ) → Step s (timeout_fires rx r s)
    disconnects : (r : ℕ) → Step s (response_closes rx r s)

  pub data Reach (s : Service N S) : Service N S → Type 0 where
    here : Reach s s
    next : {t u : Service N S} → Reach s t → Step t u → Reach s u

  Step-Inv : {s t : Service N S} → IsRx rx → Step s t → Inv rx s → Inv rx t
  unfolding response_closes
  Step-Inv {s} l (opens id res) v = open_stream-Inv rx l id res s v
  Step-Inv {s} l (emits id e) v = emit-Inv rx z id e s v
  Step-Inv {s} l (cancels id now) v = cancel-Inv rx id now s v
  Step-Inv {s} l (closes id) v = close-Inv rx id s v
  Step-Inv {s} l (beats r) v = heartbeat_fires-Inv rx r s v
  Step-Inv {s} l (times_out r) v = timeout_fires-Inv rx r s v
  Step-Inv {s} l (disconnects r) v = cleanup-Inv rx (s.registrations r).stream_id s v

  -- In every state that is reached from an agreeing one, the map of streams and the registrations
  -- agree: the stream under a name is that of a live registration of that name on its response, and
  -- no heartbeat runs without a stream.
  pub Reach-Inv : {s t : Service N S} → IsRx rx → Inv rx s → Reach s t → Inv rx t
  Reach-Inv l v here = v
  Reach-Inv l v (next r st) = Step-Inv l st (Reach-Inv l v r)

  inactive-emit :
      (id : String) (e : SseEvent N) (s : Service N S)
      → lookup id s.streams ≡ none
      → emit rx z id e s ≡ (resolved tt, s)
  unfolding emit emit_to
  inactive-emit id e s h = rw (h, emit_to)

  -- An event for an active stream is written to the stream's response if it meets the event
  -- contract; otherwise the violation is thrown and nothing is written.
  emit-active :
      (id : String) (e : SseEvent N) (d : StreamEntry) (s : Service N S)
      → Inv rx s
      → lookup id s.streams ≡ some d
      → emit rx z id e s ≡ (
          if passes (sse_event_checks z e)
          then (resolved tt, write d.res (event e) s)
          else (rejected (contract_violation "SSEEventV1" (z.report (sse_event_checks z e))), s))
  unfolding emit emit_to deliver
  emit-active id e d s v k =
      let (_, _, _, _, live) = v.known id d k in rw (k, emit_to) (rw live refl)

  -- After `close` the stream is gone, and every event for it is dropped without an error.
  pub close_ends :
      (id : String) (e : SseEvent N) (s : Service N S)
      → (is_active id (close rx id s) ≡ false)
        × (emit rx z id e (close rx id s) ≡ (resolved tt, close rx id s))
  unfolding is_active
  close_ends id e s =
      let gone = close-gone rx id s in
      (rw (gone, is_active), inactive-emit id e (close rx id s) gone)

  -- After `close` no registration under the name of the stream, however old, still has a heartbeat.
  pub close_silences :
      (id : String) (r : ℕ) (s : Service N S)
      → Inv rx s
      → r < (close rx id s).next
      → ((close rx id s).registrations r).stream_id ≡ id
      → ((close rx id s).registrations r).heartbeat_timer ≡ false
  close_silences id r s v lt named =
      let t = close rx id s in
      elim (Bool-cases (t.registrations r).heartbeat_timer) [
        | inr off ↦ off
        | inl beating ↦
            let (e, at, is_r) = (close-Inv rx id s v).owned r lt beating in
            let missing : lookup (t.registrations r).stream_id t.streams ≡ none =
              subst (λ k. lookup k t.streams ≡ none) (sym named) (close-gone rx id s) in
            cc
      ]

  -- A response that closes late, after its name has been given to a new stream, takes that new
  -- stream down: the name is then inactive, and events for it are dropped.
  pub late_close_kills :
      (id : String) (r : ℕ) (d : StreamEntry) (s : Service N S)
      → (s.registrations r).stream_id ≡ id
      → lookup id s.streams ≡ some d
      → d.registration ≢ r
      → (is_active id s ≡ true)
        × (is_active id (response_closes rx r s) ≡ false)
        × ((e : SseEvent N)
            → emit rx z id e (response_closes rx r s) ≡ (resolved tt, response_closes rx r s))
  unfolding is_active response_closes
  late_close_kills id r d s named at other =
      let gone : lookup id (cleanup rx (s.registrations r).stream_id s).streams ≡ none =
        subst (λ k. lookup id (cleanup rx k s).streams ≡ none) (sym named) (cleanup-gone rx id s) in
      (rw (at, is_active), rw (gone, is_active), λ e. inactive-emit id e _ gone)
