-- ===== src/Recorder.antt =====
-- The events that the controllers record for their resources (record.EventRecorder of client-go).
use atlas_operator.Prelude.{String}

-- record.EventRecorder: the type, the reason and the message of an event.
pub data EventType : Type 0 where
  warning_event normal_event : EventType

pub record RecordedEvent : Type 0 where
  pub event_type : EventType
  pub event_reason : String
  pub event_message : String

abbrev pub event : EventType → String → String → RecordedEvent
event t r m = record { event_type = t; event_reason = r; event_message = m }
