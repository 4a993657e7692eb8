-- ===== src/RateLimit/Signups.antt =====
-- The signup throttle: how many keys an address gets in a window, and that addresses are apart.
use clawdchat.Base.{
  ℕ, ◌+◌, ◌-◌, ◌≤◌, String, ◌≡◌, ◌≢◌, true, false, none, some, List, [], ◌∷◌, arith, leb, or_else,
  length, if◌then◌else◌,
}
use clawdchat.Map.{get, get-insert}
use clawdchat.RateLimit.{
  RateLimiter, SignupWindow, try_register_signup, signup_window, signup_max_per_window,
  current_window,
}

-- Attempts of one address at the given times, and how many of them are allowed.
pub attempts : RateLimiter → String → List ℕ → RateLimiter × ℕ
attempts r ip [] = (r, 0)
attempts r ip (t ∷ ts) =
    let (r', allowed) = try_register_signup r t ip in
    let (r'', n) = attempts r' ip ts in (r'', if allowed then n + 1 else n)

-- All times lie in the window that starts at `start`.
abbrev pub InWindow : ℕ → List ℕ → Type 0
InWindow start [] = Unit {0}
InWindow start (t ∷ ts) = (t - start ≤ signup_window) × InWindow start ts

abbrev pub min_left : ℕ → ℕ → ℕ
min_left n m = if leb n m then n else m

abbrev window : ℕ → ℕ → SignupWindow
window count start = record { count = count; window_start = start }

signup_in_window :
    (r : RateLimiter) (ip : String) (count start t : ℕ)
    → get r.signups ip ≡ some (window count start)
    → t - start ≤ signup_window
    → (get (try_register_signup r t ip).0.signups ip
        ≡ some (window (if leb signup_max_per_window count then count else count + 1) start))
      × ((try_register_signup r t ip).1 ≡ (if leb signup_max_per_window count then false else true))
unfolding try_register_signup
signup_in_window r ip count start t e h = ground (
  arith,
  get-insert r.signups ip (window count start) ip,
  get-insert r.signups ip (window (count + 1) start) ip,
)

attempts-InWindow :
    (r : RateLimiter) (ip : String) (count start : ℕ) (ts : List ℕ)
    → get r.signups ip ≡ some (window count start)
    → InWindow start ts
    → count ≤ signup_max_per_window
    → (attempts r ip ts).1 ≡ min_left (length ts) (signup_max_per_window - count)
unfolding attempts
attempts-InWindow r ip count start [] e h c = ground arith
attempts-InWindow r ip count start (t ∷ ts) e h c = ground (
  arith,
  signup_in_window r ip count start t e h.0,
  attempts-InWindow (try_register_signup r t ip).0 ip count start ts,
  attempts-InWindow (try_register_signup r t ip).0 ip (count + 1) start ts,
)

attempts_first :
    (r : RateLimiter) (ip : String) (t : ℕ)
    → get r.signups ip ≡ none
    → (get (try_register_signup r t ip).0.signups ip ≡ some (window 1 t))
      × ((try_register_signup r t ip).1 ≡ true)
unfolding try_register_signup
attempts_first r ip t e = ground (arith, get-insert r.signups ip (window (0 + 1) t) ip)

-- An address with no window yet is allowed ten of its attempts in the hour from its first, or all
-- of them if they are fewer.
pub attempts_lem :
    (r : RateLimiter) (ip : String) (t : ℕ) (ts : List ℕ)
    → get r.signups ip ≡ none
    → InWindow t ts
    → (attempts r ip (t ∷ ts)).1 ≡ min_left (length (t ∷ ts)) signup_max_per_window
unfolding attempts
attempts_lem r ip t ts e h =
    ground
      (arith, attempts_first r ip t e, attempts-InWindow (try_register_signup r t ip).0 ip 1 t ts)

-- An attempt of one address does not change whether another address is allowed its own.
pub signup-apart :
    (r : RateLimiter) (ip other_ip : String) (t u : ℕ)
    → ip ≢ other_ip
    → (try_register_signup (try_register_signup r t ip).0 u other_ip).1
      ≡ (try_register_signup r u other_ip).1
unfolding try_register_signup
signup-apart r ip other_ip t u h = ground (
  arith,
  get-insert r.signups ip (current_window t (or_else (get r.signups ip) (window 0 t))) other_ip,
  get-insert r.signups ip
      (let w = current_window t (or_else (get r.signups ip) (window 0 t)) in
        record w { count = w.count + 1 })
      other_ip,
)
