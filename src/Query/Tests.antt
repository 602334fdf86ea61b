-- ===== src/Query/Tests.antt =====
-- The transports and the end of the query service.
use downloader.Base.{◌≡◌, refl, true, false, none, [], ◌∷◌, blocks}
use downloader.Query.{http_options, http_get, http_post, graphql_transports, start}

without_websocket : graphql_transports ("http" ∷ []) ≡ http_options ∷ http_get ∷ http_post ∷ []
unfolding graphql_transports
without_websocket = refl

runs_on : start true none false none ≡ blocks
unfolding start
runs_on = refl
