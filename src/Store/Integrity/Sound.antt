-- ===== src/Store/Integrity/Sound.antt =====
-- The loop of `Store.verify_integrity` in src/city2core/store.py beside the well-formed logs.
use mathlib.Core.List.{reverse, reverse-cons}
use mathlib.Core.Option
use city.Base.{
  ◌+◌, String, ◌=?◌, ◌≡◌, ◌↔◌, refl, sym, ap, subst, ◌∙◌, inl, inr, true, Option, none, some, List,
  [], ◌∷◌, ◌++◌, arith, eq_iff, eq_refl, text_eq, if◌then◌else◌, Option-cases,
}
use city.Model.Json.{Json, obj}
use city.Model.Canonical.{Digest, sha256_json}
use city.Store.Rows.{Event}
use city.Store.Table.{find}
use city.Store.Events.{event_from_row, latest, prior_version, prior_sequence, prior_hash}
use city.Store.Integrity.{
  Terminal, WriterSequence, Scan, start, assign, terminal_of, terminal_version, terminal_sequence,
  terminal_hash, writer_sequence_of, has_digest, check_event, check_events, scan_log,
}
use city.Store.Integrity.Log.{length, last_written, Extends, IsChained, latest-cons}

find-assign :
    {R : Type 0} (key : R → String) (r : R) (j : String) (t : List R)
    → find key j (assign key r t) ≡ (if key r =? j then some r else find key j t)
unfolding find assign
find-assign key r j [] = refl
find-assign key r j (x ∷ t) =
    ground
      (arith, eq_iff (key x) (key r), eq_iff (key x) j, eq_iff (key r) j, find-assign key r j t)

-- The loop's variables after the events of a log.
pub record Tracks (s : Scan) (l : List Event) : Type 0 where
  pub expected : s.expected ≡ length l + 1
  pub terminal :
      (id : String)
      → find (λ t. t.aggregate_id) id s.terminal ≡ Option.map terminal_of (latest id l)
  pub writers :
      (w : String) → writer_sequence_of (find (λ x. x.writer) w s.writers) ≡ last_written w l

abbrev next : Scan → Event → Scan
next s row = record {
  expected = s.expected + 1;
  terminal = assign (λ t. t.aggregate_id) (terminal_of row) s.terminal;
  writers =
      assign (λ w. w.writer) (record { writer = row.writer_id; sequence = row.writer_sequence })
        s.writers;
}

has_digest_iff :
    (lib : Digest) (v : Json) (sha : String)
    → (has_digest lib v sha ≡ true) ↔ (sha256_json lib v ≡ some sha)
has_digest_iff lib v sha = (
  λ h. elim (Option-cases (sha256_json lib v)) [
    | inl e ↦ absurd (cc (rw (e, has_digest) at h))
    | inr (t, e) ↦ e ∙ ap some (text_eq t sha (rw (e, has_digest) at h))
  ],
  λ h. rw (h, has_digest) (eq_refl sha),
)

terminal-prior :
    (o : Option Event)
    → (terminal_version (Option.map terminal_of o) ≡ prior_version o)
      × (terminal_sequence (Option.map terminal_of o) ≡ prior_sequence o)
      × (terminal_hash (Option.map terminal_of o) ≡ prior_hash o)
terminal-prior none = (refl, refl, refl)
terminal-prior (some e) = (refl, refl, refl)

module _ (lib : Digest) (s : Scan) (e : Event) (l : List Event) (t : Tracks s l) where
  next-Tracks : Extends lib e l → Tracks (next s e) (e ∷ l)
  unfolding last_written
  next-Tracks x = record {
    expected = omega (arith, t.expected);
    terminal = λ id.
        rw
          (
            find-assign (λ (r : Terminal). r.aggregate_id) (terminal_of e) id s.terminal,
            latest-cons lib id e l x,
          )
          (ground (arith, t.terminal id));
    writers = λ w.
        rw (find-assign (λ (r : WriterSequence). r.writer) _ w s.writers)
          (ground (arith, t.writers w));
  }

  check_event-accepts : Extends lib e l → check_event lib s e ≡ some (next s e)
  unfolding check_event
  check_event-accepts x = ground (
    arith,
    t.expected,
    x.position,
    x.version,
    x.sequence,
    x.prior,
    x.writer,
    (has_digest_iff lib e.payload e.payload_sha256).1 x.payload,
    (has_digest_iff lib (obj (event_from_row e)) e.event_sha256).1 x.hash,
    t.terminal e.aggregate_id,
    t.writers e.writer_id,
    terminal-prior (latest e.aggregate_id l),
    eq_iff e.prior_event_sha256 (prior_hash (latest e.aggregate_id l)),
  )

  -- the tests of one round, as they passed
  record Passed : Type 0 where
    position : e.database_sequence ≡ s.expected
    payload : has_digest lib e.payload e.payload_sha256 ≡ true
    hash : has_digest lib (obj (event_from_row e)) e.event_sha256 ≡ true
    version :
        e.aggregate_version
        ≡ terminal_version (find (λ t. t.aggregate_id) e.aggregate_id s.terminal) + 1
    sequence :
        e.aggregate_sequence
        ≡ terminal_sequence (find (λ t. t.aggregate_id) e.aggregate_id s.terminal) + 1
    prior :
        (e.prior_event_sha256
          =? terminal_hash (find (λ t. t.aggregate_id) e.aggregate_id s.terminal))
        ≡ true
    writer : e.writer_sequence ≡ writer_sequence_of (find (λ w. w.writer) e.writer_id s.writers) + 1

  check_event-Passed : (s' : Scan) → check_event lib s e ≡ some s' → Passed × (s' ≡ next s e)
  unfolding check_event
  check_event-Passed s' h = ground arith

  check_event-Extends : (s' : Scan) → check_event lib s e ≡ some s' → Extends lib e l
  check_event-Extends s' h =
      let p = (check_event-Passed s' h).0 in
      let same = terminal-prior (latest e.aggregate_id l) in
      record {
        position = p.position ∙ t.expected;
        payload = (has_digest_iff lib e.payload e.payload_sha256).0 p.payload;
        hash = (has_digest_iff lib (obj (event_from_row e)) e.event_sha256).0 p.hash;
        version = omega (arith, p.version, ap terminal_version (t.terminal e.aggregate_id), same.0);
        sequence =
            omega (arith, p.sequence, ap terminal_sequence (t.terminal e.aggregate_id), same.1);
        prior = text_eq _ _ p.prior ∙ ap terminal_hash (t.terminal e.aggregate_id) ∙ same.2;
        writer = omega (arith, p.writer, t.writers e.writer_id);
      }

check_events-append :
    (lib : Digest) (s : Scan) (xs : List Event) (e : Event)
    → check_events lib s (xs ++ e ∷ [])
      ≡ elim (check_events lib s xs) [ none ↦ none | some s' ↦ check_event lib s' e ]
unfolding check_events
check_events-append lib s [] e = ground arith
check_events-append lib s (x ∷ xs) e = elim (Option-cases (check_event lib s x)) [
  | inl f ↦ rw (f, check_events) refl
  | inr (s', f) ↦ rw (f, check_events) (check_events-append lib s' xs e)
]

abbrev after_log : Digest → Event → Option Scan → Option Scan
after_log lib e o = elim o [ none ↦ none | some s' ↦ check_event lib s' e ]

scan_log-cons :
    (lib : Digest) (e : Event) (l : List Event)
    → scan_log lib (e ∷ l) ≡ after_log lib e (scan_log lib l)
unfolding scan_log
scan_log-cons lib e l = rw (reverse-cons e l) (check_events-append lib start (reverse l) e)

start-Tracks : Tracks start []
unfolding last_written latest find
start-Tracks = record { expected = refl; terminal = λ id. refl; writers = λ w. refl }

-- The loop accepts every well-formed log.
pub scan_log-accepts :
    (lib : Digest) (l : List Event)
    → IsChained lib l
    → (s : Scan) × (scan_log lib l ≡ some s) × Tracks s l
scan_log-accepts lib [] c = (start, unfold scan_log check_events in refl, start-Tracks)
scan_log-accepts lib (e ∷ l) (x, c) =
    let rest = scan_log-accepts lib l c in
    let (s, h, t) = rest in
    (
      next s e,
      scan_log-cons lib e l ∙ ap (after_log lib e) h ∙ check_event-accepts lib s e l t x,
      next-Tracks lib s e l t x,
    )

-- A log that the loop accepts is well formed.
pub scan_log-IsChained :
    (lib : Digest) (l : List Event) (s : Scan)
    → scan_log lib l ≡ some s
    → IsChained lib l × Tracks s l
scan_log-IsChained lib [] s h =
    (tt, subst (λ x. Tracks x []) {x = start} (unfold scan_log check_events in cc h) start-Tracks)
scan_log-IsChained lib (e ∷ l) s h = elim (Option-cases (scan_log lib l)) [
  | inl f ↦ absurd (cc (scan_log-cons lib e l, h, ap (after_log lib e) f))
  | inr (s', f) ↦
      let rest = scan_log-IsChained lib l s' f in
      let g : check_event lib s' e ≡ some s =
        sym (ap (after_log lib e) f) ∙ sym (scan_log-cons lib e l) ∙ h in
      let x = check_event-Extends lib s' e l rest.1 s g in
      (
        (x, rest.0),
        subst (λ y. Tracks y (e ∷ l)) (sym (check_event-Passed lib s' e l rest.1 s g).1)
            (next-Tracks lib s' e l rest.1 x),
      )
]

-- The event loop of `verify_integrity` accepts a log exactly if every event of it extends the
-- events before it.
pub scan_log_iff :
    (lib : Digest) (l : List Event) → ((s : Scan) × (scan_log lib l ≡ some s)) ↔ IsChained lib l
scan_log_iff lib l = (
  λ (s, h). (scan_log-IsChained lib l s h).0,
  λ c. let (s, h, _) = scan_log-accepts lib l c in (s, h),
)
