-- ===== src/Api/Router.antt =====
-- internal/api/router/router.go, internal/chat/router/router.go and internal/streaming/api/router/router.go:
-- what they register with fiber, in their order. How fiber matches a path is left to it.
use streaming_video_service.Prelude.{String, List, [], ◌∷◌, append_text, map, ◌++◌}

-- A handler for a method and a path, or a middleware for the paths below one.
pub data Registration (H : Type 0) : Type 0 where
  get : String → H → Registration H
  post : String → H → Registration H
  use_jwt_middleware : String → Registration H

-- `Group`: the prefix before every path.
abbrev pub below : {H : Type 0} → String → Registration H → Registration H
below prefix (get path h) = get (append_text prefix path) h
below prefix (post path h) = post (append_text prefix path) h
below prefix (use_jwt_middleware path) = use_jwt_middleware (append_text prefix path)

pub data GatewayHandler : Type 0 where
  swagger connect_check debug_log_flag : GatewayHandler
  register_member login_member find_by_email logout_member : GatewayHandler
  upload_video get_video get_index_m3u8 get_hls_segment : GatewayHandler
  search_videos get_recommendations : GatewayHandler

unfoldable pub gateway_routes : List (Registration GatewayHandler)
gateway_routes =
    (get "/swagger/*" swagger ∷ get "/" connect_check ∷ post "/debug" debug_log_flag ∷ [])
    ++ (map (below "/member") (
          post "/register" register_member
          ∷ post "/login" login_member
          ∷ get "/find" find_by_email
          ∷ use_jwt_middleware ""
          ∷ post "/logout" logout_member
          ∷ [])
        ++ map (below "/streaming") (
            use_jwt_middleware ""
            ∷ post "/upload" upload_video
            ∷ get "/video/:video_id" get_video
            ∷ get "/video/hls/:video_id/index" get_index_m3u8
            ∷ get "/video/hls/:video_id/:segment" get_hls_segment
            ∷ get "/search" search_videos
            ∷ get "/recommend" get_recommendations
            ∷ []))

-- `HandleConnection` on a websocket.
pub data ChatRoute : Type 0 where
  websocket : ChatRoute

unfoldable pub chat_routes : List (Registration ChatRoute)
chat_routes = use_jwt_middleware "" ∷ get "/ws" websocket ∷ []

-- The routes of the video handler, which the service does not register.
unfoldable pub video_routes : List (Registration GatewayHandler)
video_routes =
    post "/upload" upload_video
    ∷ get "/video/:id" get_video
    ∷ get "/video/hls/:id/index.m3u8" get_index_m3u8
    ∷ get "/video/hls/:id/:segment" get_hls_segment
    ∷ get "/video/:id" get_video
    ∷ get "/search" search_videos
    ∷ get "/recommend" get_recommendations
    ∷ []
