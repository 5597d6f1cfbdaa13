-- ===== src/Api/Tests.antt =====
-- The routes at concrete names.
use vps_pilot.Base.{◌≡◌, refl}
use vps_pilot.Base.Uri.{encode}
use vps_pilot.Api.Projects.{list_files, get_file_content, update_file, delete_file}
use vps_pilot.Api.Routes.{IsFileQuery, file_queries}

file_queries_example :
    IsFileQuery "/api/files" "/a&b" (list_files "/a&b")
    × IsFileQuery "/api/files/content" "/a&b" (get_file_content "/a&b")
    × IsFileQuery "/api/files" "/a&b" (update_file "/a&b" "x")
    × IsFileQuery "/api/files" "/a&b" (delete_file "/a&b")
file_queries_example = file_queries "/a&b" "x"

encoded : encode "a/b é€" ≡ "a%2Fb%20%C3%A9%E2%82%AC"
unfolding encode
encoded = refl
