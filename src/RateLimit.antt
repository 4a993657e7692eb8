-- ===== src/RateLimit.antt =====
-- crates/clawchat-server/src/rate_limit.rs. `now` is the reading of the monotonic clock, in
-- nanoseconds; its `elapsed` stops at 0, as `-` does here. The counters are `u64`.
pub mod Signups
pub mod Messages
use clawdchat.Base.{
  ℕ, ◌+◌, ◌-◌, ◌*◌, ◌%◌, ◌^◌, String, ite, Bool, true, false, Option, none, some, dec_eq, ltb, leb,
  or_else, if◌then◌else◌,
}
use clawdchat.Map.{Map, empty, get, insert, update, contains_key}

abbrev pub second : ℕ
second = 1000000000

abbrev pub signup_max_per_window : ℕ
signup_max_per_window = 10

abbrev pub signup_window : ℕ
signup_window = 3600 * second

abbrev pub u64_mod : ℕ
u64_mod = 2 ^ 64

pub record SignupWindow : Type 0 where
  pub count : ℕ
  pub window_start : ℕ

pub record KeyUsage : Type 0 where
  pub agent_count : ℕ
  pub msg_count : ℕ
  pub msg_window_start : ℕ
  pub room_count : ℕ

abbrev pub new_usage : ℕ → KeyUsage
new_usage now = record { agent_count = 0; msg_count = 0; msg_window_start = now; room_count = 0 }

pub record TierLimits : Type 0 where
  pub max_agents : ℕ
  pub max_messages_per_minute : ℕ
  pub max_rooms : ℕ
  pub max_message_bytes : ℕ
  pub history_retention_days : Option ℕ

unfoldable pub free : TierLimits
free = record {
  max_agents = 20;
  max_messages_per_minute = 200;
  max_rooms = 50;
  max_message_bytes = 64 * 1024;
  history_retention_days = some 14;
}

unfoldable pub pro : TierLimits
pro = record {
  max_agents = 200;
  max_messages_per_minute = 2000;
  max_rooms = 500;
  max_message_bytes = 256 * 1024;
  history_retention_days = some 90;
}

unfoldable pub for_tier : String → TierLimits
for_tier tier = ite (dec_eq tier "pro") pro free

pub record RateLimiter : Type 0 where
  pub usage : Map KeyUsage
  pub signups : Map SignupWindow

unfoldable pub new_limiter : RateLimiter
new_limiter = record { usage = empty; signups = empty }

-- The window after its reset, if that is due.
abbrev pub current_window : ℕ → SignupWindow → SignupWindow
current_window now w =
    if ltb signup_window (now - w.window_start) then record { count = 0; window_start = now } else w

unfoldable pub try_register_signup : RateLimiter → ℕ → String → RateLimiter × Bool
try_register_signup r now ip =
    let w =
      current_window now (or_else (get r.signups ip) (record { count = 0; window_start = now })) in
    if leb signup_max_per_window w.count
    then (record r { signups = insert r.signups ip w }, false)
    else (record r { signups = insert r.signups ip (record w { count = w.count + 1 }) }, true)

-- The usage of a key, made new on first use.
unfoldable pub get_or_create : RateLimiter → ℕ → String → RateLimiter × KeyUsage
get_or_create r now key = elim (get r.usage key) [
  | none ↦ (record r { usage = insert r.usage key (new_usage now) }, new_usage now)
  | some u ↦ (r, u)
]

unfoldable pub check_agent_limit : RateLimiter → ℕ → String → TierLimits → RateLimiter × Bool
unfolding get_or_create
check_agent_limit r now key limits =
    let (r', u) = get_or_create r now key in (r', ltb u.agent_count limits.max_agents)

abbrev pub current_minute : ℕ → KeyUsage → KeyUsage
current_minute now u =
    if ltb (60 * second) (now - u.msg_window_start)
    then record u { msg_window_start = now; msg_count = 0 }
    else u

unfoldable pub check_message_rate : RateLimiter → ℕ → String → TierLimits → RateLimiter × Bool
unfolding get_or_create
check_message_rate r now key limits =
    let (r', u) = get_or_create r now key in
    let v = current_minute now u in
    (record r' { usage = insert r'.usage key v }, ltb v.msg_count limits.max_messages_per_minute)

unfoldable pub check_room_limit : RateLimiter → ℕ → String → TierLimits → RateLimiter × Bool
unfolding get_or_create
check_room_limit r now key limits =
    let (r', u) = get_or_create r now key in (r', ltb u.room_count limits.max_rooms)

unfoldable pub increment_message : RateLimiter → ℕ → String → RateLimiter
unfolding get_or_create
increment_message r now key =
    let (r', u) = get_or_create r now key in
    record r' { usage = insert r'.usage key (record u { msg_count = (u.msg_count + 1) % u64_mod }) }

unfoldable pub add_agent : RateLimiter → ℕ → String → RateLimiter
unfolding get_or_create
add_agent r now key =
    let (r', u) = get_or_create r now key in
    record r' {
      usage = insert r'.usage key (record u { agent_count = (u.agent_count + 1) % u64_mod });
    }

unfoldable pub remove_agent : RateLimiter → String → RateLimiter
remove_agent r key = record r {
  usage =
      update r.usage key
        (λ u. if ltb 0 u.agent_count then record u { agent_count = u.agent_count - 1 } else u);
}

unfoldable pub add_room : RateLimiter → ℕ → String → RateLimiter
unfolding get_or_create
add_room r now key =
    let (r', u) = get_or_create r now key in
    record r' {
      usage = insert r'.usage key (record u { room_count = (u.room_count + 1) % u64_mod });
    }

unfoldable pub remove_room : RateLimiter → String → RateLimiter
remove_room r key = record r {
  usage =
      update r.usage key
        (λ u. if ltb 0 u.room_count then record u { room_count = u.room_count - 1 } else u);
}
