-- ===== src/FileList.antt =====
-- custom_components/reolink_battery/recording_probe.py: `_list_recordings_file_info`, the
-- transaction that opens, pages through and closes the camera's list of recordings. What the
-- camera answers is an argument; an answer is already parsed.
pub mod Closed
mod Tests
use ha_reolink_battery.Base.{
  ℕ, zero, suc, ◌+◌, String, Bool, true, false, not, ◌&&◌, ◌||◌, Option, none, some, List, [], ◌∷◌,
  ◌++◌, if◌then◌else◌, ltb, nat_eq, length, contains, ℤ,
}
use ha_reolink_battery.Match.{RecordingMetadata}

-- The telemetry of the transaction.
pub record FileInfoTrace : Type 0 where
  pub open_attempted : Bool
  pub open_succeeded : Bool
  pub open_failure_type : String
  pub open_response_code : Option ℕ
  pub handle_present : Bool
  pub get_attempted : Bool
  pub get_page_index : Option ℕ
  pub get_pages_succeeded : ℕ
  pub get_failure_type : String
  pub get_response_code : Option ℕ
  pub last_page_file_count : Option ℕ
  pub finished_flag : Option Bool
  pub close_attempted : Bool
  pub close_succeeded : Bool
  pub close_failure_type : String
  pub close_response_code : Option ℕ

abbrev pub fresh_trace : FileInfoTrace
fresh_trace = record {
  open_attempted = false;
  open_succeeded = false;
  open_failure_type = "";
  open_response_code = none;
  handle_present = false;
  get_attempted = false;
  get_page_index = none;
  get_pages_succeeded = 0;
  get_failure_type = "";
  get_response_code = none;
  last_page_file_count = none;
  finished_flag = none;
  close_attempted = false;
  close_succeeded = false;
  close_failure_type = "";
  close_response_code = none;
}

-- An answer, or a caught exception with its class name and response code.
pub data Reply {ℓ} (A : Type ℓ) : Type ℓ where
  answered : A → Reply A
  refused : String → Option ℕ → Reply A

-- The reply to one cmd14: the handle, if the answer holds one, and whether the connection is gone
-- when the exception is handled.
pub record OpenReply : Type 0 where
  pub reply : Reply (Option ℤ)
  pub connection_lost : Bool

-- `_parse_file_info_page`
pub data Page : Type 0 where
  unparsable : Page
  page : List RecordingMetadata → Option Bool → Page

pub data Answer : Type 0 where
  listed : List RecordingMetadata → Answer
  error : String → Answer

abbrev pub max_file_info_pages : ℕ
max_file_info_pages = 10

abbrev pub typical_file_info_page_size : ℕ
typical_file_info_page_size = 40

-- What follows the reply to an attempt; after an exception the attempts that are left, unless the
-- connection is gone.
unfoldable pub after_reply :
    Reply (Option ℤ)
    → Bool
    → FileInfoTrace
    → (FileInfoTrace → FileInfoTrace × Option (Option ℤ))
    → FileInfoTrace × Option (Option ℤ)
after_reply (answered handle) lost t retry = (record t { open_succeeded = true }, some handle)
after_reply (refused kind code) lost t retry =
    let t' : FileInfoTrace = record t { open_failure_type = kind; open_response_code = code } in
    if lost then (t', none) else retry t'

-- The attempts at cmd14, `left` of them; gives the handle of the answer.
unfoldable pub open_list :
    ℕ → ℕ → (ℕ → OpenReply) → FileInfoTrace → FileInfoTrace × Option (Option ℤ)
open_list zero i replies t = (t, none)
open_list (suc left) i replies t =
    after_reply (replies i).reply (replies i).connection_lost t (open_list left (i + 1) replies)

-- The recordings so far; `seen_names` holds their names.
pub record Scan : Type 0 where
  pub trace : FileInfoTrace
  pub recordings : List RecordingMetadata
  pub seen_names : List String

-- The loop over the files of a page.
unfoldable pub add_files : List RecordingMetadata → Scan → Scan
add_files [] s = s
add_files (r ∷ rs) s = add_files rs (
    if contains r.file_name s.seen_names
    then s
    else record s { recordings = s.recordings ++ r ∷ []; seen_names = r.file_name ∷ s.seen_names })

abbrev pub is_true : Option Bool → Bool
is_true (some true) = true
is_true _ = false

abbrev pub is_unknown : Option Bool → Bool
is_unknown none = true
is_unknown (some _) = false

-- Whether the loop over the pages breaks after this page.
unfoldable pub is_last : List RecordingMetadata → Option Bool → Bool
is_last files finished =
    is_true finished
    || nat_eq (length files) 0
    || (is_unknown finished && ltb (length files) typical_file_info_page_size)

unfoldable pub note_page : List RecordingMetadata → Option Bool → Scan → Scan
note_page files finished s = record s {
  trace = record s.trace { last_page_file_count = some (length files); finished_flag = finished };
}

unfoldable pub count_page : Scan → Scan
count_page s = record s {
  trace = record s.trace { get_pages_succeeded = s.trace.get_pages_succeeded + 1 };
}

unfoldable pub ask_page : ℕ → Scan → Scan
ask_page i s = record s { trace = record s.trace { get_attempted = true; get_page_index = some i } }

abbrev pub is_400 : Option ℕ → Bool
is_400 none = false
is_400 (some code) = nat_eq code 400

-- How the loop goes on after a page.
pub data Turn : Type 0 where
  again last : Turn
  fails : String → Turn

-- The body of the loop. The refusal with code 400 of a page that is not the first ends the list.
unfoldable pub read_page : ℕ → Reply Page → Scan → Scan × Turn
read_page i (refused kind code) s =
    let asked = ask_page i s in
    (
      record asked {
        trace = record asked.trace { get_failure_type = kind; get_response_code = code };
      },
      if ltb 0 i && is_400 code then last else fails "FILE_INFO_GET_ERROR",
    )
read_page i (answered unparsable) s = (count_page (ask_page i s), fails "FILE_INFO_PARSE_ERROR")
read_page i (answered (page files finished)) s = (
  add_files files (note_page files finished (count_page (ask_page i s))),
  if is_last files finished then last else again,
)

unfoldable pub follow : Turn → Scan → Scan × Option String → Scan × Option String
follow again s rest = rest
follow last s rest = (s, none)
follow (fails stage) s rest = (s, some stage)

-- The loop over the pages, `left` of which may still be asked for; none is success.
unfoldable pub get_pages : ℕ → ℕ → (ℕ → Reply Page) → Scan → Scan × Option String
get_pages zero i replies s = (s, none)
get_pages (suc left) i replies s =
    let (s', turn) = read_page i (replies i) s in
    let rest = get_pages left (i + 1) replies s' in follow turn s' rest

-- The `finally` clause.
unfoldable pub close_list : Reply (Unit {0}) → FileInfoTrace → FileInfoTrace
close_list (answered _) t = record t { close_attempted = true; close_succeeded = true }
close_list (refused kind code) t = record t {
  close_attempted = true;
  close_failure_type = kind;
  close_response_code = code;
}

abbrev pub answer_of : Scan × Option String → Answer
answer_of (s, none) = listed s.recordings
answer_of (s, some stage) = error stage

unfoldable pub read_list :
    (ℕ → Reply Page) → Reply (Unit {0}) → FileInfoTrace → FileInfoTrace × Answer
read_list pages close t =
    let scanned =
      get_pages max_file_info_pages 0 pages
        (record { trace = record t { handle_present = true }; recordings = []; seen_names = [] }) in
    (close_list close scanned.0.trace, answer_of scanned)

unfoldable pub with_handle :
    (ℕ → Reply Page) → Reply (Unit {0}) → FileInfoTrace × Option (Option ℤ) → FileInfoTrace × Answer
with_handle pages close (t, none) = (t, error "FILE_INFO_OPEN_ERROR")
with_handle pages close (t, some none) = (t, error "FILE_INFO_HANDLE_ERROR")
with_handle pages close (t, some (some handle)) = read_list pages close t

unfoldable pub list_recordings_file_info :
    (ℕ → OpenReply) → (ℕ → Reply Page) → Reply (Unit {0}) → FileInfoTrace × Answer
list_recordings_file_info opens pages close =
    with_handle pages close (open_list 3 0 opens (record fresh_trace { open_attempted = true }))
