-- ===== src/Tests/Web.antt =====
-- The endpoints of the REST API.
use clawdchat.Base.{◌≡◌, refl, true, false, ◌||◌, ◌&&◌, some, none, [], same, dec_eq}
use clawdchat.Base.Sorting.{every}
use clawdchat.Map.{contains_key, empty}
use clawdchat.Store.Rooms.{get_room}
use clawdchat.Handler.{may_read}
use clawdchat.Web.{AppState, is_admin, create_key, api_list_rooms, found_room, api_room_history}
use clawdchat.Web.Exposure.{shows_readable, rest_readable, create_key_guarded}
use clawdchat.Tests.Posts.{world}

abbrev site : AppState
site = record {
  world = world;
  no_auth = false;
  api_key = "k0";
  signup_enabled = true;
  admin_secret = some "sesame";
  allowed_origins = [];
  trusted_proxy_ips = [];
}

rest_readable_example :
    (every (may_read "k2" false) (api_list_rooms site) ≡ true)
    × (shows_readable "k2"
          (found_room (get_room site.world.store "lobby"))
          (api_room_history site "lobby")
        ≡ true)
rest_readable_example = rest_readable site "k2" "lobby"

create_key_guarded_example :
    (contains_key site.world.store.api_keys "k7"
      || (same "k7" "k7" && (site.signup_enabled && is_admin site.admin_secret (some "sesame"))))
    ≡ true
unfolding contains_key clawdchat.Map.get create_key dec_eq clawdchat.RateLimit.try_register_signup
    clawdchat.RateLimit.new_limiter empty clawdchat.Store.Listings.create_api_key
    clawdchat.Map.insert
create_key_guarded_example =
    create_key_guarded (λ s. none) site 0 "1.2.3.4" none (some "sesame") "k7" "k7" refl
