-- ===== src/Http/Tests.antt =====
-- Calls of a control-plane that answers 503, and the socket's address.
use openscale.Base.{Text, codes, none, false, ◌≡◌, refl}
use openscale.Http.{Fetched, response, failed, api_get, api_delete, ws_url}

abbrev down : Fetched Text
down = response false (codes "503") (codes "Service Unavailable") none

get_names_the_call :
    api_get (codes "http://localhost:8080") (λ request. down) (codes "/api/home/stats")
    ≡ failed (codes "GET /api/home/stats failed: 503 Service Unavailable")
unfolding api_get
get_names_the_call = refl

delete_names_the_call :
    api_delete (codes "http://localhost:8080") (λ request. down) (codes "/api/jobs/runs")
    ≡ failed (codes "DELETE /api/jobs/runs failed: 503 Service Unavailable")
unfolding api_delete
delete_names_the_call = refl

secure_socket :
    ws_url (codes "https://console") (codes "/api/streaming/ws")
    ≡ codes "wss://console/api/streaming/ws"
unfolding ws_url
secure_socket = refl
