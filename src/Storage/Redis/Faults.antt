-- ===== src/Storage/Redis/Faults.antt =====
-- src/storage/redis.rs over a connection to the server of Storage.Redis.Server that fails at times.
use tower_rate_tier.Duration.{Duration}
use tower_rate_tier.Prelude.{
  ◌∙◌, Bool, ◌*◌, ◌+◌, Bool-cases, Option, Result, ap, arith, err, false, if◌then◌else◌, inl, inr,
  ok, refl, some, ℕ, ◌≡◌, ◌≤◌,
}
use tower_rate_tier.Prelude.Text.{Text}
use tower_rate_tier.Quota.{Quota}
use tower_rate_tier.Storage.{Decision, StorageError}
use tower_rate_tier.Storage.Breaker.Local.{has_failed}
use tower_rate_tier.Storage.Redis.{
  Connection, Invoked, RedisStorage, check_and_update, decision_of, redis_storage, refused,
  script_call, timed_out,
}
use tower_rate_tier.Storage.Redis.Effective.{effective}
use tower_rate_tier.Storage.Redis.Key.{Sha1}
use tower_rate_tier.Storage.Redis.Rate.{
  script_run, Arrival, arrived, charge_under, ended, level-ended, place,
}
use tower_rate_tier.Storage.Redis.Script.{ScriptError, ScriptReply, Write}
use tower_rate_tier.Storage.Redis.Server.{
  Expiry, IsKept, Server, answered, on_server, raw, script_connection,
}
use tower_rate_tier.Storage.Redis.Units.{burst, interval}
use tower_rate_tier.Storage.Serve.{ask}

-- How a call ends: in time; never sent, or refused, with an error; or with a reply that comes after
-- the timeout, when the script has run.
pub data Fault : Type 0 where
  in_time : Fault
  unreachable : StorageError → Fault
  overdue : Fault

-- The server, and how the next call to it ends.
pub record Line : Type 0 where
  pub server : Server
  pub fault : Fault

abbrev pub end_call : Fault → Line → Invoked × Server → Invoked × Line
end_call in_time l (i, sv) = (i, record l { server = sv })
end_call (unreachable e) l (i, sv) = (refused e, l)
end_call overdue l (i, sv) = (timed_out, record l { server = sv })

-- The line when the server's clock shows a time.
abbrev pub line_at : Server → ℕ → Fault → Line
line_at sv at f = record { server = record sv { clock = at }; fault = f }

module _ (x : Expiry) (message : ScriptError → StorageError)
    (timeout_error : Duration → StorageError) where
  abbrev pub faulty_connection : Connection Line
  faulty_connection = record {
    invoke = λ limit sent l.
        end_call l.fault l ((script_connection x message timeout_error).invoke limit sent l.server);
    timeout_error = timeout_error;
  }

  -- The storage with its settings.
  abbrev pub on_line : RedisStorage Server → RedisStorage Line
  on_line s = record {
    conn = faulty_connection;
    key_prefix = s.key_prefix;
    timeout = s.timeout;
    hash_user_ids = s.hash_user_ids;
    key_secret = s.key_secret;
    client_clock = s.client_clock;
  }

module _ (sha1 : Sha1) (x : Expiry) (message : ScriptError → StorageError)
    (timeout_error : Duration → StorageError) where
  -- What the caller gets of a call, when the script gives a result.
  abbrev received_of :
      Fault → Server → Arrival → Result (ScriptReply × Option Write) ScriptError → Decision × Line
  received_of in_time sv a r =
      let (d, after) = ended sha1 x message timeout_error sv a r in
      (d, record { server = after; fault = in_time })
  received_of (unreachable error) sv a r = (err error, line_at sv a.at (unreachable error))
  received_of overdue sv a r =
      let (d, after) = ended sha1 x message timeout_error sv a r in
      (err (timeout_error a.instance_of.timeout), record { server = after; fault = overdue })

  abbrev pub received : Fault → Server → Arrival → Decision × Line
  received f sv a = received_of f sv a (arrived sha1 x message timeout_error sv a)

  decision-on_line :
      (s : RedisStorage Server) (sv : Server) (key : Text) (limit : ℕ)
      (r : Result (ScriptReply × Option Write) ScriptError)
      → decision_of sha1
          (on_line x message timeout_error s)
          limit
          (answered x message timeout_error sv key r).0
        ≡ decision_of sha1
            (on_server x message timeout_error s)
            limit
            (answered x message timeout_error sv key r).0
  decision-on_line s sv key limit (ok (reply, w)) = refl
  decision-on_line s sv key limit (err e) = refl

  ask-received_of :
      (sv : Server) (a : Arrival) (f : Fault)
      → ask
          (redis_storage sha1 (on_line x message timeout_error a.instance_of))
          (line_at sv a.at f)
          a.request
        ≡ some (
            received_of f sv a
              (script_run sha1 x message timeout_error a.instance_of.client_clock sv a))
  unfolding ask redis_storage check_and_update script_call
  ask-received_of sv a in_time =
      let r = script_run sha1 x message timeout_error a.instance_of.client_clock sv a in
      ap
        (λ (d : Decision).
          some
            (d, record { server = (ended sha1 x message timeout_error sv a r).1; fault = in_time }))
        (decision-on_line a.instance_of (record sv { clock = a.at })
          (place sha1 x message timeout_error a) a.request.quota.max_burst r)
  ask-received_of sv a (unreachable error) = refl
  ask-received_of sv a overdue = refl

  pub ask-received :
      (sv : Server) (a : Arrival) (f : Fault)
      → a.instance_of.client_clock ≡ false
      → ask
          (redis_storage sha1 (on_line x message timeout_error a.instance_of))
          (line_at sv a.at f)
          a.request
        ≡ some (received f sv a)
  ask-received sv a f server_clock =
      ask-received_of sv a f
      ∙ ap
          (λ (sent : Bool).
            some (received_of f sv a (script_run sha1 x message timeout_error sent sv a)))
          server_clock

  -- A call that fails for the caller may charge the key, and one that does not does so exactly.
  pub received-level :
      (k : Text) (q : Quota) (sv : Server) (a : Arrival) (f : Fault)
      → (place sha1 x message timeout_error a ≡ k → a.request.quota ≡ q)
      → IsKept (sv.entries k)
      → let (r, p) = received f sv a in
        IsKept (p.server.entries k)
        × (effective (raw (sv.entries k)) a.at (burst q)
              + interval q
                * (if has_failed (some (r, p))
                    then 0
                    else charge_under sha1 x message timeout_error k (a, r))
            ≤ effective (raw (p.server.entries k)) a.at (burst q))
  received-level k q sv a in_time same safe =
      let (b, c) = level-ended sha1 x message timeout_error k q sv a _ same safe refl in
      (
        b,
        elim (Bool-cases (has_failed (some (received in_time sv a)))) [
          | inl y ↦ rw y (omega (arith, c))
          | inr y ↦ rw y (omega (arith, c))
        ],
      )
  received-level k q sv a (unreachable error) same safe = (safe, omega arith)
  received-level k q sv a overdue same safe =
      let (b, c) = level-ended sha1 x message timeout_error k q sv a _ same safe refl in
      (b, omega (arith, c))
