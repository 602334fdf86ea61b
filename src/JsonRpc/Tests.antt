-- ===== src/JsonRpc/Tests.antt =====
-- Requests to the JSON-RPC server.
use downloader.Base.{◌≡◌, refl, none}
use downloader.JsonRpc.{handle_request, method_not_allowed, served}

get_refused : handle_request "GET" none ≡ method_not_allowed
unfolding handle_request
get_refused = refl

post_served : handle_request "POST" none ≡ served none
unfolding handle_request
post_served = refl
