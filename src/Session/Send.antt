-- ===== src/Session/Send.antt =====
-- Best-effort messages: what is sent depends on Telegram, and neither the database nor the control
-- flow does.
-- `if tg_user_id:` and `if chat_id:`; zero is false too.
use music_room_bot.Prelude.{ℕ, zero, suc, ◌≡◌, Option, none, some, arith, ℤ, pos, negsuc}
use music_room_bot.Session.{Outcome, ok, Notice, Env, Session, Exec, pure, ◌>>◌, try_send}

unfoldable pub send_to_user : Env → Option ℕ → (ℕ → Notice) → Exec (Unit {0})
send_to_user env none notice = pure tt
send_to_user env (some zero) notice = pure tt
send_to_user env (some (suc n)) notice = try_send env (notice (suc n))

unfoldable pub send_to_chat : Env → Option ℤ → (ℤ → Notice) → Exec (Unit {0})
send_to_chat env none notice = pure tt
send_to_chat env (some (pos zero)) notice = pure tt
send_to_chat env (some (pos (suc n))) notice = try_send env (notice (pos (suc n)))
send_to_chat env (some (negsuc n)) notice = try_send env (notice (negsuc n))

-- `if tg_user_id is None: return`
unfoldable pub send_if_some : Env → Option ℕ → (ℕ → Notice) → Exec (Unit {0})
send_if_some env none notice = pure tt
send_if_some env (some n) notice = try_send env (notice n)

-- A best-effort message changes nothing but the trace of events.
abbrev pub OnlyEvents : Outcome (Unit {0}) × Session → Session → Type 0
OnlyEvents (r, s') s =
    (r ≡ ok tt) × (s'.committed ≡ s.committed) × (s'.current ≡ s.current) × (s'.locks ≡ s.locks)

pub try_send-OnlyEvents : (env : Env) (n : Notice) (s : Session) → OnlyEvents (try_send env n s) s
try_send-OnlyEvents env n s = ground arith

module _ (env : Env) (s : Session) where
  pub send_to_user-OnlyEvents :
      (tg : Option ℕ) (notice : ℕ → Notice) → OnlyEvents (send_to_user env tg notice s) s
  unfolding send_to_user
  send_to_user-OnlyEvents none notice = ground arith
  send_to_user-OnlyEvents (some zero) notice = ground arith
  send_to_user-OnlyEvents (some (suc n)) notice = try_send-OnlyEvents env (notice (suc n)) s

  pub send_to_chat-OnlyEvents :
      (chat : Option ℤ) (notice : ℤ → Notice) → OnlyEvents (send_to_chat env chat notice s) s
  unfolding send_to_chat
  send_to_chat-OnlyEvents none notice = ground arith
  send_to_chat-OnlyEvents (some (pos zero)) notice = ground arith
  send_to_chat-OnlyEvents (some (pos (suc n))) notice =
      try_send-OnlyEvents env (notice (pos (suc n))) s
  send_to_chat-OnlyEvents (some (negsuc n)) notice = try_send-OnlyEvents env (notice (negsuc n)) s

  pub send_if_some-OnlyEvents :
      (tg : Option ℕ) (notice : ℕ → Notice) → OnlyEvents (send_if_some env tg notice s) s
  unfolding send_if_some
  send_if_some-OnlyEvents none notice = ground arith
  send_if_some-OnlyEvents (some n) notice = try_send-OnlyEvents env (notice n) s

module _ (env : Env) (s : Session) where
  pub send_both-OnlyEvents :
      (tg : Option ℕ) (m : ℕ → Notice) (chat : Option ℤ) (n : ℤ → Notice)
      → OnlyEvents ((send_to_user env tg m >> send_to_chat env chat n) s) s
  send_both-OnlyEvents tg m chat n = ground (
    arith,
    send_to_user-OnlyEvents env s tg m,
    send_to_chat-OnlyEvents env (send_to_user env tg m s).1 chat n,
  )
