-- ===== src/Cloud/Tests.antt =====
-- events.py: the theorem at a page with one motion message and one of another camera.
use ha_reolink_battery.Base.{pos}
use ha_reolink_battery.Python.Documents.{Json, arr, cons, end, field, int, nil, obj, str}

abbrev page : Json
page = obj (
    field "items"
      (arr (
        cons
          (obj (
            field "id" (str "m1") (
              field "uid" (str "U")
                (field "alarmAt" (int (pos 1000)) (field "alarmType" (str "MOTION") end)))))
          (cons (obj (field "id" (str "m2") (field "uid" (str "V") end))) nil)))
      end)
