-- ===== src/Lib.antt =====
-- A verification library of the Reolink Battery integration for Home Assistant, the Python package
-- custom_components/reolink_battery. The integration turns the alarms of a sleeping battery camera
-- into events of a bounded, persistent queue, and a single worker wakes the camera, downloads the
-- recording that belongs to an event, and announces a verified file; a Live View hub shares one
-- camera session among its viewers and lets the worker take the camera.
--
-- The parts and where they are modelled:
-- - Base: shared names, lists measured by native numbers, sets and dictionaries of texts as lists.
-- - Python: exceptions as results, JSON documents, instants in microseconds, and the text services
--   of the standard library that stay abstract (`Runtime`, with a concrete instance in
--   Python/Sample for the tests).
-- - Event (const.py, events.py): the records `CloudEvent`, `CompletedRecording`, `DeferredEvent`,
--   their storage forms, the freshness rule and `parse_alarm_time`.
-- - Queue (events.py): `EventQueue`; each method is the function of its name, from a queue to a
--   queue and what the method returns. Queue/Storage has `load` and `as_storage`.
-- - Coordinator (coordinator.py): the queue with the store. `saved` is the queue whose document was
--   written last, so a missing save shows as a difference.
-- - Worker (recording_worker.py, and recording_worker_v138.py, whose subclass `__init__.py` builds):
--   the state in Worker/State, the rules of admission and choice in Worker, the startup in
--   Worker/Startup, the two buttons in Worker/Manual, one attempt in Worker/Attempt, and the rounds,
--   the waits and the main loop in Worker/Round; Worker/Quiet has the rounds that no other task
--   disturbs, and Worker/Yielding an attempt together with the Live View hub. Worker/Outside has
--   `ingest_notification` of `__init__.py` and the acts of other tasks.
-- - Match and FileList (recording_probe.py): `select_recording_candidate`, and the transaction
--   `_list_recordings_file_info` with the camera's answers as arguments.
-- - Notification (notification_bridge.py): the reading of a notification in Notification, the
--   bridge's fields and its tests of a repost in Notification/Telemetry, its handlers in
--   Notification/Bridge.
-- - Cloud (events.py): `parse_cloud_events`, the reading of the Message Center.
-- - Live (live_http.py): `ReolinkBatteryLiveHub`.
-- - Wire: Python's `bytes` as lists of numbers, with slices, `find` and little-endian integers.
-- - Stream (live_stream.py): the live session. The media parser `_parse_rolling_bcmedia` is in
--   Stream, one function for each branch of its loop, and its counters and sinks in Stream/Buffer;
--   Stream/Frames has the messages, their requests and `parse_bc_data`; Stream/Chunk the media
--   chunk of a message and `observe_live_frame`; Stream/Ack `send_ack`; Stream/Beats the heartbeat
--   and the media keepalive; Stream/Session `async_stream_media` with its clean-up. Stream/Sender
--   is the camera's side of the format, which the source does not have: it says what the parser
--   has to give back.
-- - Transport (transport.py): the route to the camera, the discovery packets and replies, the search
--   `resolve_uid_lan`, and in Transport/Handoff the lease and the connection that adopts its socket.
-- - Status (device_status.py): the status snapshot and the cache that merges refreshes in Status, the
--   parsers in Status/Parse.
--
-- State is passed explicitly, a coroutine is a function, and what it awaits is an argument: the
-- outcome of a download, the clock at each reading, and the list of acts that other tasks perform
-- while the worker waits (a notification, the two buttons, a stop). Between two waits nothing else
-- runs, as in the event loop; a save of the store counts as no wait. The loop over the stale events
-- reads the clock once for all its deferrals.
--
-- Instants are exact counts of microseconds since the year 1; Python computes ages in floating-point
-- seconds, which agrees up to rounding. Floating-point JSON numbers are modelled from zero up and to
-- a millionth. A set is a list read by membership; a dictionary is an association list in insertion
-- order. The attempts at an event are a recursion on the attempts that are left, three at first, as
-- in the source. The main loop runs over a list of plans, one for each round, and says whether the
-- plans were enough.
--
-- The live media parser recurs on fuel, one turn for each byte of the buffer and one more; each turn
-- that goes on removes a byte at least. The cutting of messages has the same fuel, since a message
-- takes twenty bytes at least. The search for the camera recurs on the readings of its clock. Byte
-- values are numbers that the readers do not bound; what `to_bytes` writes is below 256.
--
-- Not modelled: the Baichuan protocol of the camera library and the download itself
-- (recording_download_*.py, camera.py), which the worker meets as outcomes; the datagram endpoint, the
-- binding of ports and the XML of the discovery layer, which are arguments; the cloud client
-- (cloud.py) and the poll of the coordinator; the entities, the configuration flow and the
-- diagnostics, which read state or call Home Assistant; the hashing, the regular expression and the
-- case folding of the notification texts, which are parameters (`Services`).
pub mod Base
pub mod Cloud
pub mod Coordinator
pub mod Event
pub mod FileList
pub mod Live
pub mod Match
pub mod Notification
pub mod Python
pub mod Queue
pub mod Status
pub mod Stream
pub mod Transport
pub mod Wire
pub mod Worker
