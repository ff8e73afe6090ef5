-- ===== src/Tests/Logs.antt =====
-- The paths of build logs.
use piwheels.Prelude.{◌<◌, ◌%◌, ◌≡◌, some, [], ◌∷◌, text}
use piwheels.BuildLogs.{
  get_log_file_path, log_path_to_build_id, log_path_to_build_id-get_log_file_path,
}

log_path_to_build_id-get_log_file_path_example :
    (log_path_to_build_id (text "www" ∷ []) (get_log_file_path 123456789 (text "www" ∷ []))
      ≡ some (123456789 % 1000000000000))
    × (123456789 < 1000000000000
        → log_path_to_build_id (text "www" ∷ []) (get_log_file_path 123456789 (text "www" ∷ []))
          ≡ some 123456789)
log_path_to_build_id-get_log_file_path_example =
    log_path_to_build_id-get_log_file_path 123456789 (text "www" ∷ [])
