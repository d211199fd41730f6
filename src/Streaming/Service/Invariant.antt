-- ===== src/Streaming/Service/Invariant.antt =====
-- The streams, the registrations and their timers agree after every call and event.
use ai_content_platform.Prelude.{
  ℕ, ◌<◌, String, ◌≡◌, refl, sym, subst, ◌∙◌, Bool, true, false, Option, none, some, nat_eq,
  if◌then◌else◌, lookup, remove, lookup-remove, arith, eq_iff, eq_refl, Bool-cases, Option-cases,
  inl, inr, ◌==◌,
}
use ai_content_platform.Streaming.Events.{stream_error}
use ai_content_platform.Streaming.Service.{
  Rx, Frame, done, event, StreamEntry, Registration, Service, assign, write, stopped_timers,
  cleanup_entry, cleanup, close_entry, close, subject_error,
}

-- What rxjs documents: a fresh subject delivers to its subscriber, a stopped one or one whose
-- subscriber has left does not.
pub record IsRx {S : Type 0} (rx : Rx S) : Type 0 where
  pub fresh_delivers : rx.delivers rx.new_subject ≡ true
  pub stopped_silent : (x : S) → rx.delivers (rx.stop x) ≡ false
  pub left_silent : (x : S) → rx.delivers (rx.unsubscribe x) ≡ false

module _ {N S : Type 0} (rx : Rx S) where
  -- A stream of the map is that of a registration under its name, on its response, whose subject
  -- delivers and whose heartbeat runs; and a heartbeat that runs is that of a stream of the map.
  pub record Inv (s : Service N S) : Type 0 where
    pub known :
        (id : String) (e : StreamEntry)
        → lookup id s.streams ≡ some e
        → (e.registration < s.next)
          × ((s.registrations e.registration).stream_id ≡ id)
          × ((s.registrations e.registration).res ≡ e.res)
          × ((s.registrations e.registration).heartbeat_timer ≡ true)
          × (rx.delivers (s.registrations e.registration).subject ≡ true)
    pub owned :
        (r : ℕ)
        → r < s.next
        → (s.registrations r).heartbeat_timer ≡ true
        → (e : StreamEntry) × (lookup (s.registrations r).stream_id s.streams ≡ some e)
          × (e.registration ≡ r)

  pub write-Inv : (res : ℕ) (f : Frame N) (s : Service N S) → Inv s → Inv (write res f s)
  unfolding write
  write-Inv res f s v = record { known = v.known; owned = v.owned }

  module _ (id : String) (e : StreamEntry) (s : Service N S) (found : lookup id s.streams ≡ some e)
      (v : Inv s) where
    cleanup_known :
        (j : String) (d : StreamEntry)
        → lookup j (remove id s.streams) ≡ some d
        → ((id == j) ≡ false)
          × (lookup j s.streams ≡ some d)
          × (nat_eq e.registration d.registration ≡ false)
    cleanup_known j d h =
        let e_id = (v.known id e found).1 in
        let kept : ((id == j) ≡ false) × (lookup j s.streams ≡ some d) =
          ground (arith, lookup-remove id j s.streams) in
        let d_id = (v.known j d kept.1).1 in (kept.0, kept.1, ground (arith, eq_iff id j))

    cleanup_owned :
        (r : ℕ) (b : Bool)
        → nat_eq e.registration r ≡ b
        → r < s.next
        → (if b
            then stopped_timers rx (s.registrations e.registration)
            else s.registrations r).heartbeat_timer
          ≡ true
        → (d : StreamEntry) × (lookup
              (if b
                then stopped_timers rx (s.registrations e.registration)
                else s.registrations r).stream_id
              (remove id s.streams)
            ≡ some d)
          × (d.registration ≡ r)
    cleanup_owned r true same lt h = cc
    cleanup_owned r false other lt h =
        let (d, at, is_r) = v.owned r lt h in
        let apart : (id == (s.registrations r).stream_id) ≡ false =
          ground (arith, eq_iff id (s.registrations r).stream_id) in
        (d, lookup-remove id (s.registrations r).stream_id s.streams ∙ rw apart at, is_r)

    cleanup_entry-Inv : Inv (cleanup_entry rx id (some e) s)
    unfolding cleanup_entry
    cleanup_entry-Inv = record {
      known = λ j d h.
          let (_, k, ne) = cleanup_known j d h in
          let (a, b, c, f, g) = v.known j d k in rw ne (a, b, c, f, g);
      owned = λ r lt h. cleanup_owned r (nat_eq e.registration r) refl lt h;
    }

  pub cleanup-Inv : (id : String) (s : Service N S) → Inv s → Inv (cleanup rx id s)
  unfolding cleanup
  cleanup-Inv id s v = by_entry (lookup id s.streams) refl
    where
      by_entry : (o : Option StreamEntry) → lookup id s.streams ≡ o → Inv (cleanup_entry rx id o s)
      by_entry none found = unfold cleanup_entry in v
      by_entry (some e) found = cleanup_entry-Inv id e s found v

  pub close-Inv : (id : String) (s : Service N S) → Inv s → Inv (close rx id s)
  unfolding close close_entry
  close-Inv id s v = by_entry (lookup id s.streams)
    where
      by_entry : (o : Option StreamEntry) → Inv (close_entry rx id o s)
      by_entry none = v
      by_entry (some e) = cleanup-Inv id (write e.res done s) (write-Inv e.res done s v)

  -- No stream is left under the name.
  pub cleanup-gone : (id : String) (s : Service N S) → lookup id (cleanup rx id s).streams ≡ none
  unfolding cleanup cleanup_entry
  cleanup-gone id s = elim (Option-cases (lookup id s.streams)) [
    | inl e ↦ rw (e, cleanup_entry) e
    | inr (d, e) ↦ rw (e, cleanup_entry) (lookup-remove id id s.streams ∙ rw (eq_refl id))
  ]

  pub close-gone : (id : String) (s : Service N S) → lookup id (close rx id s).streams ≡ none
  unfolding close close_entry
  close-gone id s = elim (Option-cases (lookup id s.streams)) [
    | inl e ↦ rw (e, close_entry) e
    | inr (d, e) ↦ rw (e, close_entry) (cleanup-gone id (write d.res done s))
  ]

  cleanup-stream_id :
      (id : String) (r : ℕ) (s : Service N S)
      → ((cleanup rx id s).registrations r).stream_id ≡ (s.registrations r).stream_id
  unfolding cleanup cleanup_entry
  cleanup-stream_id id r s = ground arith

  close-stream_id :
      (id : String) (r : ℕ) (s : Service N S)
      → ((close rx id s).registrations r).stream_id ≡ (s.registrations r).stream_id
  unfolding close close_entry write
  close-stream_id id r s = elim (Option-cases (lookup id s.streams)) [
    | inl e ↦ rw (e, close_entry) refl
    | inr (d, e) ↦ rw (e, close_entry) (cleanup-stream_id id r (write d.res done s))
  ]

  -- No stream of the map is that of the registration.
  abbrev Unused : ℕ → Service N S → Type 0
  Unused r s =
      (id : String) (e : StreamEntry)
      → lookup id s.streams ≡ some e
      → nat_eq r e.registration ≡ false

  abbrev put : ℕ → Registration S → Service N S → Service N S
  put r g s = record s { registrations = assign s.registrations r g }

  pub retire-Inv :
      (r : ℕ) (g : Registration S) (s : Service N S)
      → Unused r s
      → g.stream_id ≡ (s.registrations r).stream_id
      → g.heartbeat_timer ≡ (s.registrations r).heartbeat_timer
      → Inv s
      → Inv (put r g s)
  retire-Inv r g s unused same_id same_beat v = record {
    known = λ j d h. let (a, b, c, f, k) = v.known j d h in rw (unused j d h) (a, b, c, f, k);
    owned = λ q lt h. still q (nat_eq r q) refl lt h;
  }
    where
      still :
          (q : ℕ) (b : Bool)
          → nat_eq r q ≡ b
          → q < s.next
          → (if b then g else s.registrations q).heartbeat_timer ≡ true
          → (e : StreamEntry) × (lookup (if b then g else s.registrations q).stream_id s.streams
              ≡ some e)
            × (e.registration ≡ q)
      still q true same lt h =
          let r_is_q : r ≡ q = ground arith in
          let (e, at, is_q) = v.owned q lt (ground arith) in
          (e, subst (λ k. lookup k s.streams ≡ some e) (ground arith) at, is_q)
      still q false other lt h = v.owned q lt h

  gone-Unused :
      (r : ℕ) (s : Service N S)
      → Inv s
      → lookup (s.registrations r).stream_id s.streams ≡ none
      → Unused r s
  gone-Unused r s v gone j d h = elim (Bool-cases (nat_eq r d.registration)) [
    | inr other ↦ other
    | inl same ↦
        let (_, named, _, _, _) = v.known j d h in
        let same_id : (s.registrations r).stream_id ≡ j =
          subst (λ k. (s.registrations k).stream_id ≡ j) (ground arith) named in
        ground arith
  ]

  silent-Unused :
      (r : ℕ) (s : Service N S)
      → Inv s
      → rx.delivers (s.registrations r).subject ≡ false
      → Unused r s
  silent-Unused r s v silent j d h = elim (Bool-cases (nat_eq r d.registration)) [
    | inr other ↦ other
    | inl same ↦
        let (a, b, c, f, k) = v.known j d h in
        let loud : rx.delivers (s.registrations r).subject ≡ true =
          subst (λ q. rx.delivers (s.registrations q).subject ≡ true) (ground arith) k in
        ground arith
  ]

  pub subject_error-Inv :
      (r : ℕ) (shown : String) (s : Service N S) → Inv s → Inv (subject_error rx r shown s)
  unfolding subject_error
  subject_error-Inv r shown s v = elim (Bool-cases (rx.delivers (s.registrations r).subject)) [
    | inr silent ↦ rw silent (retire-Inv r _ s (silent-Unused r s v silent) refl refl v)
    | inl loud ↦
        let id = (s.registrations r).stream_id in
        let w =
          write (s.registrations r).res
            (event (record { payload = stream_error shown; job_id = id })) s in
        let closed = close-Inv id w (write-Inv _ _ s v) in
        rw loud (
          retire-Inv r _ (close rx id w)
            (gone-Unused r (close rx id w) closed (
              subst (λ k. lookup k (close rx id w).streams ≡ none) (sym (close-stream_id id r w))
                (close-gone id w)))
            refl refl closed)
  ]
