-- ===== src/Storage/Redis/Server.antt =====
-- src/storage/redis.rs over a Redis server that runs src/storage/gcra.lua for every call, on its
-- own clock (TIME). Any number of instances of the program call one server; it runs their scripts
-- one after the other.
use tower_rate_tier.Duration.{Duration}
use tower_rate_tier.Gcra.Decision.{current}
use tower_rate_tier.Prelude.{
  ◌*◌, ◌+◌, Bool, Bool-cases, Option, Result, [], arith, err, if◌then◌else◌, inl, inr, none, ok,
  refl, some, true, ℕ, ◌∷◌, ◌≡◌, ◌≤◌,
}
use tower_rate_tier.Prelude.Decimal.{read_digits}
use tower_rate_tier.Prelude.Int.{pos}
use tower_rate_tier.Prelude.Text.{Text, text_eq}
use tower_rate_tier.Storage.{StorageError}
use tower_rate_tier.Storage.Redis.{Connection, Invoked, RedisStorage, refused, replied}
use tower_rate_tier.Storage.Redis.Script.{ScriptError, ScriptReply, Write, gcra_script}

-- A value, and the `SET ... PX` that wrote it: at which time of the server, in microseconds, and
-- for how many milliseconds.
pub record Entry : Type 0 where
  pub value : ℕ
  pub set_at : ℕ
  pub expire_ms : ℕ

pub record Server : Type 0 where
  pub entries : Text → Option Entry
  pub clock : ℕ

-- When Redis drops a key that was written at a time with an expiry: not before the expiry is over.
pub record Expiry : Type 0 where
  pub gone : ℕ → ℕ → ℕ → Bool
  pub not_early :
      (set_at expire_ms now : ℕ)
      → gone set_at expire_ms now ≡ true
      → set_at + expire_ms * 1000 ≤ now

-- `GET` at a time.
abbrev pub live : Expiry → ℕ → Option Entry → Option ℕ
live x now none = none
live x now (some e) = if x.gone e.set_at e.expire_ms now then none else some e.value

abbrev pub update : (Text → Option Entry) → Text → Option Entry → Text → Option Entry
update entries key e j = if text_eq key j then e else entries j

abbrev pub apply_write : Server → Text → Option Write → Server
apply_write sv key none = sv
apply_write sv key (some w) = record sv {
  entries =
      update sv.entries key
        (some (record { value = w.value; set_at = sv.clock; expire_ms = w.expire_ms }));
}

-- `ARGV[1]`, which the script reads as a number unless it is empty.
abbrev pub argv_now : Text → Option ℕ
argv_now [] = none
argv_now (c ∷ s) = some (read_digits (c ∷ s) 0)

module _ (x : Expiry) (message : ScriptError → StorageError)
    (timeout_error : Duration → StorageError) where
  abbrev pub answered :
      Server → Text → Result (ScriptReply × Option Write) ScriptError → Invoked × Server
  answered sv key (err e) = (refused (message e), sv)
  answered sv key (ok (reply, w)) = (
    replied (pos reply.allowed) (pos reply.remaining) (pos reply.retry_after_us)
        (pos reply.reset_after_us),
    apply_write sv key w,
  )

  -- A connection to the server on which every call is answered in time.
  abbrev pub script_connection : Connection Server
  script_connection = record {
    invoke = λ limit sent sv. answered sv sent.key (
        gcra_script (argv_now sent.now) sv.clock (live x sv.clock (sv.entries sent.key))
          sent.emission_interval sent.burst_offset sent.cost);
    timeout_error = timeout_error;
  }

module _ (x : Expiry) (message : ScriptError → StorageError)
    (timeout_error : Duration → StorageError) where
  -- A storage that reaches the server, with its settings.
  abbrev pub on_server : RedisStorage Server → RedisStorage Server
  on_server s = record s { conn = script_connection x message timeout_error }

-- The arrival time under a key, whether or not Redis has dropped it.
abbrev pub raw : Option Entry → Option ℕ
raw none = none
raw (some e) = some e.value

-- The expiry of an entry is not before its value.
abbrev pub IsKept : Option Entry → Type 0
IsKept none = Unit
IsKept (some e) = e.value ≤ e.set_at + e.expire_ms * 1000

-- An entry that Redis dropped is as good as none.
pub current-live :
    (x : Expiry) (e : Option Entry) (now : ℕ)
    → IsKept e
    → current (live x now e) now ≡ current (raw e) now
current-live x none now h = refl
current-live x (some e) now h = elim (Bool-cases (x.gone e.set_at e.expire_ms now)) [
  | inl g ↦ rw g (omega (arith, x.not_early e.set_at e.expire_ms now g))
  | inr g ↦ rw g
]
