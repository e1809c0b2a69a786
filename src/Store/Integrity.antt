-- ===== src/Store/Integrity.antt =====
-- The loop over the events in `Store.verify_integrity` of src/city2core/store.py.
pub mod Log
pub mod Sound
use city.Base.{
  ℕ, suc, ◌+◌, ◌==◌, String, ◌=?◌, Bool, true, false, ◌&&◌, Option, none, some, List, [], ◌∷◌,
  if◌then◌else◌,
}
use mathlib.Core.List.{reverse}
use city.Model.Json.{Json, obj}
use city.Model.Ids.{zero_sha256}
use city.Model.Canonical.{Digest, sha256_json}
use city.Store.Rows.{Db, Event}
use city.Store.Table.{find}
use city.Store.Events.{event_from_row}

-- An entry of `terminal`: the last event of an aggregate.
pub record Terminal : Type 0 where
  pub aggregate_id : String
  pub version : ℕ
  pub sha256 : String
  pub sequence : ℕ
  pub database_sequence : ℕ
  pub event_id : String
  pub aggregate_type : String

pub record WriterSequence : Type 0 where
  pub writer : String
  pub sequence : ℕ

-- `d[key] = row` on a dict of rows
unfoldable pub assign : {R : Type 0} → (R → String) → R → List R → List R
assign key r [] = r ∷ []
assign key r (x ∷ t) = if key x =? key r then r ∷ t else x ∷ assign key r t

-- The variables of the loop.
pub record Scan : Type 0 where
  pub expected : ℕ
  pub terminal : List Terminal
  pub writers : List WriterSequence

abbrev pub start : Scan
start = record { expected = 1; terminal = []; writers = [] }

abbrev pub terminal_of : Event → Terminal
terminal_of e = record {
  aggregate_id = e.aggregate_id;
  version = e.aggregate_version;
  sha256 = e.event_sha256;
  sequence = e.aggregate_sequence;
  database_sequence = e.database_sequence;
  event_id = e.event_id;
  aggregate_type = e.aggregate_type;
}

abbrev pub terminal_version : Option Terminal → ℕ
terminal_version none = 0
terminal_version (some t) = t.version

abbrev pub terminal_sequence : Option Terminal → ℕ
terminal_sequence none = 0
terminal_sequence (some t) = t.sequence

abbrev pub terminal_hash : Option Terminal → String
terminal_hash none = zero_sha256
terminal_hash (some t) = t.sha256

abbrev pub writer_sequence_of : Option WriterSequence → ℕ
writer_sequence_of none = 0
writer_sequence_of (some w) = w.sequence

-- the digest of a value is the text
abbrev pub has_digest : Digest → Json → String → Bool
has_digest lib v sha = elim (sha256_json lib v) [ none ↦ false | some t ↦ t =? sha ]

-- One round: `none` is the `IntegrityError`. That the payload text is canonical needs no check
-- here, since the column holds the value.
unfoldable pub check_event : Digest → Scan → Event → Option Scan
unfolding find assign
check_event lib s row =
    let prior = find (λ t. t.aggregate_id) row.aggregate_id s.terminal in
    let written = find (λ w. w.writer) row.writer_id s.writers in
    if row.database_sequence == s.expected
      && has_digest lib row.payload row.payload_sha256
      && has_digest lib (obj (event_from_row row)) row.event_sha256
      && row.aggregate_version == terminal_version prior + 1
      && row.aggregate_sequence == terminal_sequence prior + 1
      && row.prior_event_sha256 =? terminal_hash prior
      && row.writer_sequence == writer_sequence_of written + 1
    then some (record {
      expected = s.expected + 1;
      terminal = assign (λ t. t.aggregate_id) (terminal_of row) s.terminal;
      writers =
          assign (λ w. w.writer) (record { writer = row.writer_id; sequence = row.writer_sequence })
            s.writers;
    })
    else none

unfoldable pub check_events : Digest → Scan → List Event → Option Scan
check_events lib s [] = some s
check_events lib s (row ∷ rows) = elim (check_event lib s row) [
  | none ↦ none
  | some s' ↦ check_events lib s' rows
]

-- The events in the order of `database_sequence`: the log holds the newest first.
unfoldable pub scan_log : Digest → List Event → Option Scan
unfolding check_events
scan_log lib log = check_events lib start (reverse log)
