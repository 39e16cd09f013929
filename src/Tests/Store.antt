-- ===== src/Tests/Store.antt =====
-- Runs of the use cases of devices over the PostgreSQL repository.
use tolo_observation.EdgeDeviceService.{validate_camera_link}
use tolo_observation.EdgeDeviceService.{check_camera_link}
use tolo_observation.EdgeDeviceService.{unregister_camera}
use tolo_observation.EdgeDeviceService.{drop_links}
use tolo_observation.EdgeDeviceService.{unregister_within}
use tolo_observation.EdgeDeviceService.{view}
use tolo_observation.Db.EdgeDevices.{insert_link}
use tolo_observation.Db.EdgeDevices.{insert_camera_links}
use tolo_observation.Db.EdgeDevices.{insert_device}
use tolo_observation.Db.EdgeDevices.{insert_point}
use tolo_observation.Db.EdgeDevices.{insert_points}
use tolo_observation.Db.EdgeDevices.{create_rows}
use tolo_observation.Db.EdgeDevices.{update_device}
use tolo_observation.Db.EdgeDevices.{update_checked}
use tolo_observation.Db.EdgeDevices.{update_points}
use tolo_observation.Db.EdgeDevices.{save_rows}
use tolo_observation.Db.DeviceTables.{camera_links_of}
use tolo_observation.Db.DeviceTables.{observation_points_of}
use tolo_observation.Db.DeviceTables.{to_domain}
use tolo_observation.Db.DeviceTables.{device_of_row}
use tolo_observation.Db.DeviceTables.{find_device_by_id}
use tolo_observation.Db.DeviceTables.{find_device_by_point}
use tolo_observation.Db.Transaction.{execute}
use tolo_observation.Db.Transaction.{finish}
use tolo_observation.Db.Transaction.{run_in_transaction}
use tolo_observation.TenantCtx.{verify_ownership}
use tolo_observation.TenantCtx.{tenant_public_id_from_context}
use tolo_observation.TenantCtx.{event_public_id_from_context}
use tolo_observation.Common.Text.{trim_space}
use tolo_observation.Common.Text.{trim_left}
use tolo_observation.Common.Text.{trim_right}
use tolo_observation.Common.Text.{is_space}
use tolo_observation.Common.Text.{byte_len}
use tolo_observation.EdgeDevice.{unregister}
use tolo_observation.EdgeDevice.{online}
use tolo_observation.EdgeDevice.{parse_edge_device_kind}
use mathlib.Core.Option
use tolo_observation.EdgeDevice.{kind_string}
use tolo_observation.Tests.Data.{claims, page_id}
use tolo_observation.Tests.Tables.{driver, driver-IsSafe, page_tables, point_camera}
use tolo_observation.Db.EdgeDevices.{postgres_devices}
use tolo_observation.Db.DeviceTables.{DeviceTables}
use tolo_observation.Db.Transaction.{Session}
use tolo_observation.Db.EdgeDevices.Store.{
  seen, stored_flag, postgres_devices-IsTransactional, postgres_devices-IsDeviceStore,
}
use tolo_observation.Db.EdgeDevices.Replaces.{ReplacesLinks, save-ReplacesLinks}
use tolo_observation.EdgeDeviceService.{
  EdgeDeviceRepository, unregister_cameras, unregister_edge_device, create_device, EdgeDeviceView,
}
use tolo_observation.EdgeDeviceService.Cascade.{unregister_cameras-Cascades}
use tolo_observation.EdgeDeviceService.Register.{IsLinkable, create_device-IsLinkable}
use tolo_observation.EdgeDevice.{EdgeDeviceId, CameraLink, contains}
use tolo_observation.Common.Result.{Action, ok, err, Result}
use tolo_observation.Common.Text.{codes, text_eq}
use tolo_observation.Common.Int.{pos}
use tolo_observation.Common.{◌≡◌, refl, true, some, none, List, [], ◌∷◌, if◌then◌else◌}
use tolo_observation.GoTime.{Time}
use tolo_observation.TenantCtx.{ensure_event}
use tolo_observation.Db.DeviceTables.{EdgeDeviceRow, find_device}

abbrev devices : EdgeDeviceRepository (Session DeviceTables)
devices = postgres_devices (λ t. t) driver (some claims)

abbrev clock : Action (Session DeviceTables) Time
clock s = (ok (pos 150), s)

-- The page without a camera, and with one.
abbrev start : Session DeviceTables
start = record { committed = page_tables; transaction = none }

abbrev link : CameraLink
link = record { camera_edge_device_id = codes "cm"; observation_point_id = codes "pt" }

abbrev linked : Session DeviceTables
linked = (create_device devices (codes "ev") point_camera start).1

created : create_device devices (codes "ev") point_camera start ≡ (ok tt, linked)
unfolding create_device Option.bind kind_string validate_camera_link check_camera_link
    unregister_camera unregister_cameras drop_links unregister_within unregister_edge_device view
    insert_link insert_camera_links insert_device insert_point insert_points create_rows
    update_device update_checked update_points save_rows camera_links_of observation_points_of
    to_domain device_of_row find_device_by_id find_device_by_point execute finish run_in_transaction
    verify_ownership tenant_public_id_from_context event_public_id_from_context ensure_event text_eq
    trim_space trim_left trim_right is_space byte_len unregister online parse_edge_device_kind
created = refl

create_device-IsLinkable_example :
    (o : Session DeviceTables) × (seen o ≡ seen start) × IsLinkable devices (codes "ev") link o
create_device-IsLinkable_example =
    create_device-IsLinkable devices seen
      (postgres_devices-IsTransactional (λ t. t) driver (some claims) driver-IsSafe) (codes "ev")
      point_camera link [] start linked refl refl created

abbrev cameras : List EdgeDeviceId
cameras = codes "cm" ∷ codes "cm" ∷ []

abbrev cascaded : Session DeviceTables
cascaded = (unregister_cameras devices cameras linked).1

cascade : unregister_cameras devices cameras linked ≡ (ok tt, cascaded)
unfolding create_device Option.bind kind_string validate_camera_link check_camera_link
    unregister_camera unregister_cameras drop_links unregister_within unregister_edge_device view
    insert_link insert_camera_links insert_device insert_point insert_points create_rows
    update_device update_checked update_points save_rows camera_links_of observation_points_of
    to_domain device_of_row find_device_by_id find_device_by_point execute finish run_in_transaction
    verify_ownership tenant_public_id_from_context event_public_id_from_context ensure_event text_eq
    trim_space trim_left trim_right is_space byte_len unregister online parse_edge_device_kind
cascade = refl

unregister_cameras-Cascades_example :
    stored_flag (seen cascaded) (codes "cm")
    ≡ (if contains cameras (codes "cm") then some true else stored_flag (seen linked) (codes "cm"))
unregister_cameras-Cascades_example =
    unregister_cameras-Cascades devices seen stored_flag
      (postgres_devices-IsDeviceStore (λ t. t) driver (some claims) driver-IsSafe) cameras linked
      cascaded (codes "cm") cascade

abbrev unregistered : Result EdgeDeviceView × Session DeviceTables
unregistered =
    unregister_edge_device devices clock (pos 60) (some claims) (codes "ev") page_id linked

abbrev view_of : Result EdgeDeviceView → EdgeDeviceView
view_of (ok v) = v
view_of (err e) = record { device = point_camera; is_online = true }

abbrev saved : Session DeviceTables
saved = (devices.save point_camera linked).1

camera-saved : devices.save point_camera linked ≡ (ok tt, saved)
unfolding create_device Option.bind kind_string validate_camera_link check_camera_link
    unregister_camera unregister_cameras drop_links unregister_within unregister_edge_device view
    insert_link insert_camera_links insert_device insert_point insert_points create_rows
    update_device update_checked update_points save_rows camera_links_of observation_points_of
    to_domain device_of_row find_device_by_id find_device_by_point execute finish run_in_transaction
    verify_ownership tenant_public_id_from_context event_public_id_from_context ensure_event text_eq
    trim_space trim_left trim_right is_space byte_len unregister online parse_edge_device_kind
camera-saved = refl

save-ReplacesLinks_example :
    (r : EdgeDeviceRow) × (find_device (codes "cm") (seen linked) ≡ some r)
    × ReplacesLinks r.id (link ∷ []) (seen linked) (seen saved)
save-ReplacesLinks_example =
    save-ReplacesLinks (λ t. t) driver (some claims) point_camera linked saved driver-IsSafe refl
      camera-saved
