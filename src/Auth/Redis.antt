-- ===== src/Auth/Redis.antt =====
-- A dictionary of packages/api/src/modules/redis/redis.service.ts: values with an optional time of
-- expiry, in seconds. A key is gone once its time has come. The keys of one prefix form a
-- dictionary; keys of different prefixes never meet.
use kalam_network.Prelude.{
  ℕ, ◌+◌, ◌-◌, Text, Option, none, some, ltb, ◌==◌, if◌then◌else◌, Bool, true,
}

pub record Entry : Type 0 where
  pub value : ℕ
  pub expires : Option ℕ

abbrev pub Dict : Type 0
Dict = Text → Option Entry

abbrev pub is_live : ℕ → Option ℕ → Bool
is_live t none = true
is_live t (some e) = ltb t e

-- What a key holds at time `t`.
abbrev pub live : ℕ → Option Entry → Option Entry
live t none = none
live t (some e) = if is_live t e.expires then some e else none

abbrev pub value_of : Option Entry → Option ℕ
value_of none = none
value_of (some e) = some e.value

abbrev pub put : Dict → Text → Option Entry → Dict
put d k e j = if k == j then e else d j

-- `get`
abbrev pub get : ℕ → Text → Dict → Option ℕ
get t k d = value_of (live t (d k))

-- `setex`
abbrev pub setex : ℕ → Text → ℕ → ℕ → Dict → Dict
setex t k seconds v d = put d k (some (record { value = v; expires = some (t + seconds) }))

-- `del`
abbrev pub del : Text → Dict → Dict
del k d = put d k none

abbrev pub incremented : Option Entry → Entry
incremented none = record { value = 1; expires = none }
incremented (some e) = record e { value = e.value + 1 }

-- `incr`, which keeps the time of expiry.
abbrev pub incr : ℕ → Text → Dict → ℕ × Dict
incr t k d = let e = incremented (live t (d k)) in (e.value, put d k (some e))

abbrev pub expiring : ℕ → Option Entry → Option Entry
expiring at none = none
expiring at (some e) = some (record e { expires = some at })

-- `expire`
abbrev pub expire : ℕ → Text → ℕ → Dict → Dict
expire t k seconds d = put d k (expiring (t + seconds) (live t (d k)))

abbrev pub remaining : ℕ → Option Entry → ℕ
remaining t none = 0
remaining t (some e) = elim e.expires [ none ↦ 0 | some at ↦ at - t ]

-- `ttl`, which is above zero only for a key that will expire: Redis answers -1 or -2 otherwise,
-- and here 0.
abbrev pub ttl : ℕ → Text → Dict → ℕ
ttl t k d = remaining t (live t (d k))
