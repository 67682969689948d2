-- ===== src/Match/Sample.antt =====
-- A recording, for the tests.
use ha_reolink_battery.Base.{ℕ, String, none, pos}
use ha_reolink_battery.Match.{RecordingMetadata}

abbrev pub clip : String → ℕ → ℕ → RecordingMetadata
clip name start end = record {
  file_name = name;
  start_time = start;
  end_time = end;
  size = pos 4096;
  record_id = name;
  xml_file_name = "";
  display_name = "";
  channel_id = none;
  stream_type = "";
  file_type = "";
  record_type = "";
}
