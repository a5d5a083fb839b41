-- ===== src/Redis.antt =====
-- internal/redisdb/redisdb.go, and `redisReadAllow` and `orStar` of internal/web/handlers_db.go: the
-- screens of the Redis console and the rendering of replies.
pub mod Words
use verix_dbm.Base.{
  ℕ, String, Bool, true, false, List, [], ◌∷◌, map, if◌then◌else◌, Bytes, codes, str_eq, contains,
}
use verix_dbm.GoStrings.{is_space, trim_space, to_lower}

-- The words of `reDangerous`, an alternation that is anchored at both ends and ignores case.
abbrev pub dangerous_words : List String
dangerous_words =
    "flushall" ∷ "flushdb" ∷ "shutdown" ∷ "debug" ∷ "eval" ∷ "evalsha" ∷ "eval_ro" ∷ "evalsha_ro"
    ∷ "fcall" ∷ "fcall_ro" ∷ "function" ∷ "script" ∷ "module" ∷ "config" ∷ "slaveof" ∷ "replicaof"
    ∷ "migrate" ∷ "restore" ∷ "swapdb" ∷ "acl" ∷ "cluster" ∷ "failover" ∷ "save" ∷ "bgsave"
    ∷ "bgrewriteaof" ∷ "lastsave" ∷ "reset" ∷ "latency" ∷ "monitor" ∷ []

abbrev pub redis_read_words : List String
redis_read_words =
    "get" ∷ "mget" ∷ "type" ∷ "ttl" ∷ "pttl" ∷ "scan" ∷ "hget" ∷ "hgetall" ∷ "hkeys" ∷ "hlen"
    ∷ "lrange" ∷ "llen" ∷ "smembers" ∷ "scard" ∷ "zrange" ∷ "zcard" ∷ "exists" ∷ "strlen" ∷ "info"
    ∷ "dbsize" ∷ "ping" ∷ "memory" ∷ "object" ∷ []

-- `redisReadAllow[cmd]`
unfoldable pub redis_read_allowed : Bytes → Bool
redis_read_allowed cmd = contains (map codes redis_read_words) cmd

unfoldable pub redis_needs_confirm : List Bytes → Bool
redis_needs_confirm [] = false
redis_needs_confirm (arg ∷ args) = contains (map codes dangerous_words) (to_lower (trim_space arg))

-- A byte that is no white space, in front of the fields: the first of them goes on where it is
-- open.
attached : ℕ → Bool → List Bytes → List Bytes
attached c true (f ∷ fs) = (c ∷ f) ∷ fs
attached c _ fs = (c ∷ []) ∷ fs

-- The fields of a line, and whether the first of them begins at its front.
fields_from : Bytes → List Bytes × Bool
unfolding attached
fields_from [] = ([], false)
fields_from (c ∷ s) =
    let (fs, is_open) = fields_from s in
    if is_space c then (fs, false) else (attached c is_open fs, true)

-- `ParseArgs`, which is `strings.Fields`.
unfoldable pub parse_args : Bytes → List Bytes
unfolding fields_from
parse_args line = (fields_from line).0

unfoldable pub or_star : Bytes → Bytes
or_star s = if str_eq s [] then codes "*" else s
