-- ===== src/RateLimit/Messages.antt =====
-- The per-key limits as the handlers use them: check, and count what was let through.
use clawdchat.Base.{
  ℕ, ◌+◌, ◌-◌, ◌*◌, ◌%◌, ◌∙◌, ap, ◌≤◌, ◌<◌, String, ◌≡◌, refl, Bool, true, false, some, List, [],
  ◌∷◌, arith, ltb, lt→ltb, dec_lt, length, if◌then◌else◌,
}
use native.Mathlib.Nat.{mod-eq_of_lt}
use clawdchat.RateLimit.Signups.{min_left}
use clawdchat.Map.{get, insert, get-insert, get-update}
use clawdchat.RateLimit.{
  RateLimiter, KeyUsage, TierLimits, get_or_create, check_message_rate, increment_message,
  add_agent, remove_agent, second, u64_mod,
}

-- `handle_send_message` and `handle_thinking`, as far as the limit goes.
pub admit : RateLimiter → ℕ → String → TierLimits → RateLimiter × Bool
admit r now key limits =
    let (r', ok) = check_message_rate r now key limits in
    if ok then (increment_message r' now key, true) else (r', false)

-- Messages of one key at the given times, and how many of them are let through.
pub admitted : RateLimiter → String → TierLimits → List ℕ → RateLimiter × ℕ
unfolding admit
admitted r key limits [] = (r, 0)
admitted r key limits (t ∷ ts) =
    let (r', allowed) = admit r t key limits in
    let (r'', n) = admitted r' key limits ts in (r'', if allowed then n + 1 else n)

abbrev pub InMinute : ℕ → List ℕ → Type 0
InMinute start [] = Unit {0}
InMinute start (t ∷ ts) = (t - start ≤ 60 * second) × InMinute start ts

abbrev counted : KeyUsage → ℕ → KeyUsage
counted u n = record u { msg_count = n }

check_in_minute :
    (r : RateLimiter) (u : KeyUsage) (t : ℕ) (key : String) (limits : TierLimits)
    → get r.usage key ≡ some u
    → t - u.msg_window_start ≤ 60 * second
    → (get (check_message_rate r t key limits).0.usage key ≡ some u)
      × ((check_message_rate r t key limits).1 ≡ ltb u.msg_count limits.max_messages_per_minute)
unfolding check_message_rate get_or_create
check_in_minute r u t key limits e h = ground (arith, get-insert r.usage key u key)

increment-counts :
    (r : RateLimiter) (u : KeyUsage) (t : ℕ) (key : String)
    → get r.usage key ≡ some u
    → get (increment_message r t key).usage key ≡ some (counted u ((u.msg_count + 1) % u64_mod))
unfolding increment_message get_or_create
increment-counts r u t key e =
    ground (arith, get-insert r.usage key (counted u ((u.msg_count + 1) % u64_mod)) key)

module _ (key : String) (limits : TierLimits)
    (small : limits.max_messages_per_minute < u64_mod) where
  admit_pass :
      (r : RateLimiter) (u : KeyUsage) (t : ℕ)
      → get r.usage key ≡ some u
      → t - u.msg_window_start ≤ 60 * second
      → u.msg_count < limits.max_messages_per_minute
      → (get (admit r t key limits).0.usage key ≡ some (counted u (u.msg_count + 1)))
        × ((admit r t key limits).1 ≡ true)
  unfolding admit
  admit_pass r u t e h lt =
      let (p, q) = check_in_minute r u t key limits e h in
      let counts = increment-counts (check_message_rate r t key limits).0 u t key p in
      let fits : (u.msg_count + 1) % u64_mod ≡ u.msg_count + 1 = mod-eq_of_lt (omega arith) in
      rw (q, lt→ltb _ _ lt) (counts ∙ ap (λ n. some (counted u n)) fits, refl)

  admit_stop :
      (r : RateLimiter) (u : KeyUsage) (t : ℕ)
      → get r.usage key ≡ some u
      → t - u.msg_window_start ≤ 60 * second
      → limits.max_messages_per_minute ≤ u.msg_count
      → (get (admit r t key limits).0.usage key ≡ some u) × ((admit r t key limits).1 ≡ false)
  unfolding admit
  admit_stop r u t e h le = ground (arith, check_in_minute r u t key limits e h)

  -- In the minute of its window a key within its limit gets as many messages through as the limit
  -- leaves, or all of them if they are fewer; the limit is below two to the 64.
  pub admitted_lem :
      (r : RateLimiter) (u : KeyUsage) (ts : List ℕ)
      → get r.usage key ≡ some u
      → InMinute u.msg_window_start ts
      → u.msg_count ≤ limits.max_messages_per_minute
      → (admitted r key limits ts).1
        ≡ min_left (length ts) (limits.max_messages_per_minute - u.msg_count)
  unfolding admitted
  admitted_lem r u [] e h c = ground arith
  admitted_lem r u (t ∷ ts) e h c = elim (dec_lt u.msg_count limits.max_messages_per_minute) [
    | yes lt ↦
        let (p, q) = admit_pass r u t e h.0 lt in
        let rest =
          admitted_lem (admit r t key limits).0 (counted u (u.msg_count + 1)) ts p h.1
            (omega arith) in
        rw q (ground (arith, rest))
    | no ge ↦
        let (p, q) = admit_stop r u t e h.0 (omega arith) in
        let rest = admitted_lem (admit r t key limits).0 u ts p h.1 (omega arith) in
        rw q (ground (arith, rest))
  ]

-- A connection that comes and goes leaves the usage of a key that has one as it was, unless its
-- count overflows.
pub remove_agent-add_agent :
    (r : RateLimiter) (u : KeyUsage) (now : ℕ) (key : String)
    → get r.usage key ≡ some u
    → u.agent_count + 1 < u64_mod
    → get (remove_agent (add_agent r now key) key).usage key ≡ some u
unfolding remove_agent add_agent get_or_create
remove_agent-add_agent r u now key e h =
    let v : KeyUsage = record u { agent_count = (u.agent_count + 1) % u64_mod } in
    let fits : (u.agent_count + 1) % u64_mod ≡ u.agent_count + 1 = mod-eq_of_lt h in
    ground (
      arith,
      fits,
      get-insert r.usage key v key,
      get-update (insert r.usage key v) key
          (λ w. if ltb 0 w.agent_count then record w { agent_count = w.agent_count - 1 } else w)
          key,
    )
