-- ===== src/FileList/Tests.antt =====
-- recording_probe.py: the theorem at a camera that refuses once and then lists a file.
use ha_reolink_battery.Base.{ℕ, zero, suc, true, false, some, [], ◌∷◌, pos}
use ha_reolink_battery.Match.Sample.{clip}
use ha_reolink_battery.FileList.{
  OpenReply, Page, Reply, answered, list_recordings_file_info, page, refused,
}
use ha_reolink_battery.FileList.Closed.{IsClosed, list_recordings_file_info-IsClosed}

abbrev opens : ℕ → OpenReply
opens zero = record { reply = refused "ApiError" (some 400); connection_lost = false }
opens (suc i) = record { reply = answered (some (pos 7)); connection_lost = false }

abbrev pages : ℕ → Reply Page
pages i = answered (page (clip "a" 1 2 ∷ clip "a" 1 2 ∷ []) (some true))

list_recordings_file_info-IsClosed_example :
    IsClosed (list_recordings_file_info opens pages (answered tt))
list_recordings_file_info-IsClosed_example =
    list_recordings_file_info-IsClosed opens pages (answered tt)
