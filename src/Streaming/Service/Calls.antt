-- ===== src/Streaming/Service/Calls.antt =====
-- Every call and event of the service keeps its streams, registrations and timers in agreement.
use ai_content_platform.Prelude.{
  ℕ, suc, ◌<◌, String, ◌≡◌, refl, sym, subst, ◌∙◌, Bool, true, false, none, some, nat_eq,
  if◌then◌else◌, lookup, insert, lookup-insert, arith, eq_iff, eq_refl, Option-cases, inl, inr,
  ◌==◌, if_rule,
}
use ai_content_platform.Contracts.{Zod, passes}
use ai_content_platform.Streaming.Events.{SseEvent, sse_event_checks}
use ai_content_platform.Streaming.Service.{
  Rx, event, headers, StreamEntry, Registration, Service, assign, write, is_active, register,
  open_stream, deliver, emit_to, emit, cancel_entry, cancel, heartbeat_fires, timeout_fires,
}
use ai_content_platform.Exceptions.{Settled}
use ai_content_platform.Streaming.Service.Invariant.{IsRx, Inv, write-Inv, subject_error-Inv}

module _ {N S : Type 0} (rx : Rx S) where
  -- Marking the entry of a stream as cancelled.
  mark-Inv :
      (id : String) (e : StreamEntry) (now : ℕ) (s : Service N S)
      → lookup id s.streams ≡ some e
      → Inv rx s
      → Inv rx (record s { streams = insert id (record e { cancelled_at = some now }) s.streams })
  mark-Inv id e now s found v = record {
    known = λ j d h. marked j d (id == j) refl (sym (lookup-insert id j _ s.streams) ∙ h);
    owned = λ r lt h.
        let (d, at, is_r) = v.owned r lt h in
        kept r d at is_r (id == (s.registrations r).stream_id) refl;
  }
    where
      marked :
          (j : String) (d : StreamEntry) (b : Bool)
          → (id == j) ≡ b
          → (if b then some (record e { cancelled_at = some now }) else lookup j s.streams) ≡ some d
          → (d.registration < s.next)
            × ((s.registrations d.registration).stream_id ≡ j)
            × ((s.registrations d.registration).res ≡ d.res)
            × ((s.registrations d.registration).heartbeat_timer ≡ true)
            × (rx.delivers (s.registrations d.registration).subject ≡ true)
      marked j d true same h =
          let (a, b, c, f, g) = v.known id e found in
          let is_d : record e { cancelled_at = some now } ≡ d = ground arith in
          subst
            (λ (k : StreamEntry).
              (k.registration < s.next)
              × ((s.registrations k.registration).stream_id ≡ j)
              × ((s.registrations k.registration).res ≡ k.res)
              × ((s.registrations k.registration).heartbeat_timer ≡ true)
              × (rx.delivers (s.registrations k.registration).subject ≡ true))
            is_d (a, b ∙ (eq_iff id j).0 same, c, f, g)
      marked j d false other h = v.known j d h

      kept :
          (r : ℕ) (d : StreamEntry)
          → lookup (s.registrations r).stream_id s.streams ≡ some d
          → d.registration ≡ r
          → (b : Bool) → (id == (s.registrations r).stream_id) ≡ b
          → (x : StreamEntry) × (lookup
                (s.registrations r).stream_id
                (insert id (record e { cancelled_at = some now }) s.streams)
              ≡ some x)
            × (x.registration ≡ r)
      kept r d at is_r true same = (
        record e { cancelled_at = some now },
        lookup-insert id (s.registrations r).stream_id _ s.streams ∙ rw same refl,
        ground (arith, eq_iff id (s.registrations r).stream_id),
      )
      kept r d at is_r false other =
          (d, lookup-insert id (s.registrations r).stream_id _ s.streams ∙ rw other at, is_r)

  module _ (l : IsRx rx) where
    register-Inv :
        (id : String) (res : ℕ) (s : Service N S)
        → lookup id s.streams ≡ none
        → Inv rx s
        → Inv rx (register rx id res s)
    unfolding register write
    register-Inv id res s free v = record {
      known = λ j d h. added j d (id == j) refl (sym (lookup-insert id j _ s.streams) ∙ h);
      owned = λ r lt h. held r (nat_eq s.next r) refl lt h;
    }
      where
        fresh : Registration S
        fresh = record {
          stream_id = id;
          res = res;
          subject = rx.new_subject;
          heartbeat_timer = true;
          timeout_timer = true;
        }

        entry : StreamEntry
        entry = record { registration = s.next; res = res; cancelled_at = none }

        added :
            (j : String) (d : StreamEntry) (b : Bool)
            → (id == j) ≡ b
            → (if b then some entry else lookup j s.streams) ≡ some d
            → (d.registration < suc s.next)
              × ((assign s.registrations s.next fresh d.registration).stream_id ≡ j)
              × ((assign s.registrations s.next fresh d.registration).res ≡ d.res)
              × ((assign s.registrations s.next fresh d.registration).heartbeat_timer ≡ true)
              × (rx.delivers (assign s.registrations s.next fresh d.registration).subject ≡ true)
        added j d true same h = ground (arith, eq_iff id j, l.fresh_delivers)
        added j d false other h = ground (arith, v.known j d h)

        held :
            (r : ℕ) (b : Bool)
            → nat_eq s.next r ≡ b
            → r < suc s.next
            → (if b then fresh else s.registrations r).heartbeat_timer ≡ true
            → (x : StreamEntry) × (lookup
                  (if b then fresh else s.registrations r).stream_id
                  (insert id entry s.streams)
                ≡ some x)
              × (x.registration ≡ r)
        held r true same lt h =
            (entry, lookup-insert id id entry s.streams ∙ rw (eq_refl id), ground arith)
        held r false other lt h =
            let (d, at, is_r) = v.owned r (ground arith) h in
            let apart : (id == (s.registrations r).stream_id) ≡ false =
              ground (arith, eq_iff id (s.registrations r).stream_id) in
            (d, lookup-insert id (s.registrations r).stream_id entry s.streams ∙ rw apart at, is_r)

    pub open_stream-Inv :
        (id : String) (res : ℕ) (s : Service N S) → Inv rx s → Inv rx (open_stream rx id res s)
    unfolding open_stream is_active
    open_stream-Inv id res s v = elim (Option-cases (lookup id s.streams)) [
      | inl e ↦ rw (e, is_active) (register-Inv id res s e v)
      | inr (d, e) ↦ rw (e, is_active) (write-Inv rx res headers s v)
    ]

  pub emit-Inv :
      (z : Zod N) (id : String) (e : SseEvent N) (s : Service N S)
      → Inv rx s
      → Inv rx (emit rx z id e s).1
  unfolding emit emit_to
  emit-Inv z id e s v = elim (Option-cases (lookup id s.streams)) [
    | inl k ↦ rw (k, emit_to) v
    | inr (d, k) ↦
        rw (k, emit_to)
          (if_rule {A = Settled (Unit {0}) × Service N S} (λ given. Inv rx given.1)
            (passes (sse_event_checks z e))
            (λ h. sent (rx.delivers (s.registrations d.registration).subject) d.res) (λ h. v))
  ]
    where
      sent : (b : Bool) (res : ℕ) → Inv rx (deliver rx z b res e s)
      sent true res = unfold deliver in (write-Inv rx res (event e) s v)
      sent false res = unfold deliver in v

  pub cancel-Inv :
      (id : String) (now : ℕ) (s : Service N S) → Inv rx s → Inv rx (cancel rx id now s).1
  unfolding cancel cancel_entry
  cancel-Inv id now s v = elim (Option-cases (lookup id s.streams)) [
    | inl k ↦ rw (k, cancel_entry) v
    | inr (e, k) ↦
        rw (k, cancel_entry)
          (subject_error-Inv rx e.registration "Error: Stream cancelled by client" _
            (mark-Inv id e now s k v))
  ]

  pub heartbeat_fires-Inv : (r : ℕ) (s : Service N S) → Inv rx s → Inv rx (heartbeat_fires rx r s)
  unfolding heartbeat_fires
  heartbeat_fires-Inv r s v =
      if_rule (Inv rx) (s.registrations r).heartbeat_timer (λ h. write-Inv rx _ _ s v) (λ h. v)

  spent-Inv :
      (r : ℕ) (s : Service N S)
      → Inv rx s
      → Inv rx (record s {
        registrations =
            assign s.registrations r (record (s.registrations r) { timeout_timer = false });
      })
  spent-Inv r s v = record {
    known = λ j d h. noted j d (v.known j d h);
    owned = λ q lt h. let (d, at, is_q) = v.owned q lt (ground arith) in (d, ground arith, is_q);
  }
    where
      noted :
          (j : String) (d : StreamEntry)
          → (d.registration < s.next)
            × ((s.registrations d.registration).stream_id ≡ j)
            × ((s.registrations d.registration).res ≡ d.res)
            × ((s.registrations d.registration).heartbeat_timer ≡ true)
            × (rx.delivers (s.registrations d.registration).subject ≡ true)
          → (d.registration < s.next)
            × ((assign s.registrations r
                  (record (s.registrations r) { timeout_timer = false })
                  d.registration).stream_id
                ≡ j)
            × ((assign s.registrations r
                  (record (s.registrations r) { timeout_timer = false })
                  d.registration).res
                ≡ d.res)
            × ((assign s.registrations r
                  (record (s.registrations r) { timeout_timer = false })
                  d.registration).heartbeat_timer
                ≡ true)
            × (rx.delivers
                  (assign s.registrations r
                    (record (s.registrations r) { timeout_timer = false })
                    d.registration).subject
                ≡ true)
      noted j d k = ground arith

  pub timeout_fires-Inv : (r : ℕ) (s : Service N S) → Inv rx s → Inv rx (timeout_fires rx r s)
  unfolding timeout_fires
  timeout_fires-Inv r s v =
      if_rule (Inv rx) (s.registrations r).timeout_timer
        (λ h. subject_error-Inv rx r "Error: Stream timeout" _ (spent-Inv r s v)) (λ h. v)
