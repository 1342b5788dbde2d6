-- ===== src/Store/Rows.antt =====
-- The tables of sentinel/store.py (`SCHEMA`): a row type for each, and the database that holds them.
use nexguard_sentinel.Prelude.{ℕ, String, Option, none, List, [], Bool, true, false, string_eq}
use nexguard_sentinel.Python.Text.{Text}

-- The values that the CHECK of `intents.status` allows.
pub data Status : Type 0 where
  reserved prepared broadcast success reverted already_desired indeterminate : Status

-- What `json.dumps` is given; its text is a function of this.
pub data Json : Type 0 where
  array : List String → Json
  object : List (String × String) → Json

-- `sequence` is the text of a number, so that it may pass SQLite's 64 bits.
pub record Cursor : Type 0 where
  pub source : String
  pub sequence : Text
  pub block_number : ℕ

pub record Event : Type 0 where
  pub id : String
  pub source : String
  pub sequence : Text
  pub block_number : ℕ
  pub payload : String

pub record Incident : Type 0 where
  pub id : String
  pub created_at : String
  pub source_ids : Json

pub record Intent : Type 0 where
  pub id : String
  pub incident_id : String
  pub status : Status
  pub created_at : String
  pub nonce : Option ℕ
  pub tx_hash : Option String
  pub fee_data : Option String
  pub outcome_evidence : Option String

pub record IntentEvent : Type 0 where
  pub event_id : String
  pub intent_id : String

pub record Outbox : Type 0 where
  pub id : ℕ
  pub intent_id : String
  pub payload : Json
  pub status : String
  pub attempts : ℕ
  pub next_attempt_at : Option String
  pub last_error : Option String

pub record Audit : Type 0 where
  pub id : ℕ
  pub at : String
  pub intent_id : String
  pub transition : String
  pub detail : String

-- `latch` has one row at most: its reason.
pub record Db : Type 0 where
  pub cursors : List Cursor
  pub events : List Event
  pub incidents : List Incident
  pub intents : List Intent
  pub intent_events : List IntentEvent
  pub latch : Option String
  pub outbox : List Outbox
  pub audit : List Audit

-- A database whose schema has just been created.
abbrev pub empty : Db
empty = record {
  cursors = [];
  events = [];
  incidents = [];
  intents = [];
  intent_events = [];
  latch = none;
  outbox = [];
  audit = [];
}

abbrev pub cursor_key : Cursor → String
cursor_key c = c.source

abbrev pub event_key : Event → String
event_key e = e.id

abbrev pub incident_key : Incident → String
incident_key i = i.id

abbrev pub intent_key : Intent → String
intent_key i = i.id

abbrev pub owner_key : IntentEvent → String
owner_key e = e.event_id

-- status IN ('reserved','prepared','broadcast','indeterminate')
abbrev pub is_unfinished : Status → Bool
is_unfinished Status.reserved = true
is_unfinished Status.prepared = true
is_unfinished Status.broadcast = true
is_unfinished Status.indeterminate = true
is_unfinished _ = false

abbrev pub is_reserved : Status → Bool
is_reserved Status.reserved = true
is_reserved _ = false

abbrev pub is_prepared : Status → Bool
is_prepared Status.prepared = true
is_prepared _ = false

-- status in ("broadcast", "indeterminate")
abbrev pub is_sent : Status → Bool
is_sent Status.broadcast = true
is_sent Status.indeterminate = true
is_sent _ = false

abbrev pub is_indeterminate : Status → Bool
is_indeterminate Status.indeterminate = true
is_indeterminate _ = false
