-- ===== src/Web/Consoles/Checks.antt =====
-- What has been checked of a command of the Redis or the MongoDB console before it is run.
use verix_dbm.Base.{
  ℕ, ◌≡◌, refl, ap, ◌⊎◌, inl, inr, Bool, true, false, not, ◌||◌, Option, none, some, List, [], ◌∷◌,
  ◌++◌, map, arith, Bool-cases, Option-cases, All, some_of, Bytes, codes, str_eq, contains,
  Result-cases, Result, ok, err,
}
use verix_dbm.GoStrings.{to_lower, trim_space}
use verix_dbm.Auth.Roles.{User}
use verix_dbm.Auth.Sessions.{Request}
use verix_dbm.Store.{Connection}
use verix_dbm.Registry.{Handle, OpenError, redis, mongo}
use verix_dbm.Redis.{redis_read_allowed, redis_needs_confirm, parse_args}
use verix_dbm.Redis.Words.{IsWord, parse_args-IsWord, contains-apart, read_allowed-needs_confirm}
use verix_dbm.Mongo.{
  CommandError, mongo_read_words, mongo_dangerous_words, command_name, mongo_read_allowed,
  mongo_needs_confirm,
}
use verix_dbm.Sql.{given}
use verix_dbm.Web.Site.{Env, Site, Call, Made, redis_command, mongo_command, called, audited}
use verix_dbm.Web.Gates.{csrf_ok, find_conn, may}
use verix_dbm.Web.Gates.Passing.{Same, open_pool-Same}
use verix_dbm.Web.Console.{runs_read_only}
use verix_dbm.Web.Consoles.{
  open_client, stopped, run_command, RedisBody, redis_on, api_redis_cmd, MongoBody, mongo_on,
  api_mongo_cmd,
}

-- Where nothing may be written the command is on the list of the reads and not on that of the
-- dangerous ones, and a dangerous one is confirmed and by an admin.
pub record Cleared (read_only allowed dangerous admin confirm : Bool) : Type 0 where
  pub reads : read_only ≡ true → (allowed ≡ true) × (dangerous ≡ false)
  pub trusted : dangerous ≡ true → (admin ≡ true) × (confirm ≡ true)

stopped-Cleared :
    (read_only allowed dangerous admin confirm : Bool) (name cmd : Bytes)
    → (allowed ≡ true → dangerous ≡ false)
    → stopped read_only allowed dangerous admin confirm name cmd ≡ none
    → Cleared read_only allowed dangerous admin confirm
unfolding stopped
stopped-Cleared read_only allowed dangerous admin confirm name cmd apart h =
    let r : read_only ≡ true → allowed ≡ true = λ k. ground (arith, h, k) in
    record {
      reads = λ k. (r k, apart (r k));
      trusted = λ k. (ground (arith, h, k), ground (arith, h, k));
    }

abbrev pub command_made : Handle → Call → Made
command_made h call = record { handle = h; call = call }

run_command-called :
    (e : Env) (u : User) (id : ℕ) (c : Connection) (call : Call) (action detail : Bytes) (s : Site)
    (p : Site × Result OpenError Handle)
    → Same e u id s p.0
    → Same e u id s (run_command e u c call action detail p).0
      ⊎ ((h : Handle) × (p.1 ≡ ok h)
          × ((run_command e u c call action detail p).0.calls ≡ command_made h call ∷ s.calls))
unfolding run_command audited called
run_command-called e u id c call action detail s (t, err error) k = inl k
run_command-called e u id c call action detail s (t, ok h) k =
    inr (h, refl, ap (λ calls. command_made h call ∷ calls) k.0)

redis_on-Cleared :
    (e : Env) (u : User) (id : ℕ) (c : Connection) (body : RedisBody) (args : List Bytes) (s : Site)
    → find_conn e u id s ≡ ok c
    → All IsWord args
    → Same e u id s (redis_on e u c body args s).0
      ⊎ ((arg : Bytes) × (rest : List Bytes) × (h : Handle) × (args ≡ arg ∷ rest)
          × Cleared
              (c.read_only || not (may e u s c))
              (redis_read_allowed (to_lower arg))
              (redis_needs_confirm args)
              u.admin
              body.confirm
          × ((open_client e redis s c).1 ≡ ok h)
          × ((redis_on e u c body args s).0.calls ≡ command_made h (redis_command args) ∷ s.calls))
unfolding redis_on runs_read_only
redis_on-Cleared e u id c body [] s k w = inl (refl, inl refl)
redis_on-Cleared e u id c body (arg ∷ args) s k w =
    let ro = c.read_only || not (may e u s c) in
    let allowed = redis_read_allowed (to_lower arg) in
    let dangerous = redis_needs_confirm (arg ∷ args) in
    elim (Option-cases
      (stopped ro allowed dangerous u.admin body.confirm (to_lower arg) body.cmd)) [
        | inr (r, f) ↦ inl (rw (redis_on, f) (refl, inl refl))
        | inl f ↦
            elim (run_command-called e u id c (redis_command (arg ∷ args)) (codes "redis_cmd")
              body.cmd s (open_client e redis s c) (open_pool-Same e u id redis s c k)) [
                | inl same ↦ inl (rw (redis_on, f) same)
                | inr (h, o, calls) ↦ inr (
                  arg,
                  args,
                  h,
                  refl,
                  stopped-Cleared ro allowed dangerous u.admin body.confirm (to_lower arg) body.cmd
                      (read_allowed-needs_confirm arg args w.0) f,
                  o,
                  rw (redis_on, f) calls,
                )
              ]
      ]

-- A command of the Redis console reaches the server at most once, as the words of its line; otherwise
-- the calls are as they were, and so are the tables but for the entry `cred_access` of the audit log
-- where the stored password of the connection has been used. It does only with the CSRF token of the session, on a connection the user may read, and on its client.
-- Where the connection is read-only or the user may not write, its first word is one of the reading
-- commands, and no dangerous one; a dangerous one is run only for an admin who has confirmed it.
pub api_redis_cmd_lem :
    (e : Env) (u : User) (req : Request) (id : ℕ) (body : Option RedisBody) (s : Site)
    → Same e u id s (api_redis_cmd e u req id body s).0
      ⊎ ((c : Connection) × (b : RedisBody) × (arg : Bytes) × (rest : List Bytes) × (h : Handle)
          × (csrf_ok e req ≡ true)
          × (find_conn e u id s ≡ ok c)
          × (body ≡ some b)
          × (parse_args b.cmd ≡ arg ∷ rest)
          × Cleared
              (c.read_only || not (may e u s c))
              (redis_read_allowed (to_lower arg))
              (redis_needs_confirm (parse_args b.cmd))
              u.admin
              b.confirm
          × ((open_client e redis s c).1 ≡ ok h)
          × ((api_redis_cmd e u req id body s).0.calls
              ≡ command_made h (redis_command (parse_args b.cmd)) ∷ s.calls))
unfolding api_redis_cmd
api_redis_cmd_lem e u req id body s = elim (Bool-cases (csrf_ok e req)) [
  | inr t ↦ inl (rw t (refl, inl refl))
  | inl t ↦ elim (Result-cases (find_conn e u id s)) [
    | inr (x, f) ↦ inl (rw (t, f) (refl, inl refl))
    | inl (c, f) ↦ elim (Option-cases body) [
      | inl b ↦ inl (rw (t, f, b) (refl, inl refl))
      | inr (b, g) ↦
          elim (redis_on-Cleared e u id c b (parse_args b.cmd) s f (parse_args-IsWord b.cmd)) [
            | inl same ↦ inl (let same' = rw f at same in rw (t, f, g) same')
            | inr (arg, rest, h, args, cleared, o, calls) ↦
                inr (c, b, arg, rest, h, t, f, g, args, cleared, o, rw (t, f, g) calls)
          ]
    ]
  ]
]

mongo_apart :
    some_of (contains (map codes mongo_dangerous_words)) (map codes mongo_read_words) ≡ false
unfolding some_of contains str_eq
mongo_apart = refl

mongo_read_allowed-needs_confirm :
    (name : Bytes) → mongo_read_allowed name ≡ true → mongo_needs_confirm name ≡ false
unfolding mongo_read_allowed mongo_needs_confirm
mongo_read_allowed-needs_confirm name k =
    contains-apart (map codes mongo_read_words) (map codes mongo_dangerous_words) name mongo_apart k

mongo_on-Cleared :
    (e : Env) (u : User) (id : ℕ) (c : Connection) (body : MongoBody)
    (parsed : Result CommandError Bytes) (s : Site)
    → find_conn e u id s ≡ ok c
    → Same e u id s (mongo_on e u c body parsed s).0
      ⊎ ((name : Bytes) × (h : Handle) × (parsed ≡ ok name)
          × Cleared
              (c.read_only || not (may e u s c))
              (mongo_read_allowed name)
              (mongo_needs_confirm name)
              u.admin
              body.confirm
          × ((open_client e mongo s c).1 ≡ ok h)
          × ((mongo_on e u c body parsed s).0.calls
              ≡ command_made h (mongo_command body.db body.cmd) ∷ s.calls))
unfolding mongo_on runs_read_only
mongo_on-Cleared e u id c body (err error) s k = inl (refl, inl refl)
mongo_on-Cleared e u id c body (ok name) s k =
    let ro = c.read_only || not (may e u s c) in
    let allowed = mongo_read_allowed name in
    let dangerous = mongo_needs_confirm name in
    elim (Option-cases (stopped ro allowed dangerous u.admin body.confirm name body.cmd)) [
      | inr (r, f) ↦ inl (rw (mongo_on, f) (refl, inl refl))
      | inl f ↦
          elim (run_command-called e u id c (mongo_command body.db body.cmd) (codes "mongo_cmd")
            (body.db ++ codes ": " ++ body.cmd) s (open_client e mongo s c)
            (open_pool-Same e u id mongo s c k)) [
              | inl same ↦ inl (rw (mongo_on, f) same)
              | inr (h, o, calls) ↦ inr (
                name,
                h,
                refl,
                stopped-Cleared ro allowed dangerous u.admin body.confirm name body.cmd
                    (mongo_read_allowed-needs_confirm name) f,
                o,
                rw (mongo_on, f) calls,
              )
            ]
    ]

-- A command of the MongoDB console reaches the server at most once; otherwise the calls are as they
-- were, and so are the tables but for the entry `cred_access` of the audit log where the stored
-- password of the connection has been used. It does only with the CSRF token
-- of the session, on a connection the user may read, and on its client. Where the connection is
-- read-only or the user may not write, its name is one of the listed reads, and no dangerous one; a
-- dangerous one is run only for an admin who has confirmed it.
pub api_mongo_cmd_lem :
    (e : Env) (u : User) (req : Request) (id : ℕ) (body : Option MongoBody) (s : Site)
    → Same e u id s (api_mongo_cmd e u req id body s).0
      ⊎ ((c : Connection) × (b : MongoBody) × (name : Bytes) × (h : Handle) × (csrf_ok e req ≡ true)
          × (find_conn e u id s ≡ ok c)
          × (body ≡ some b)
          × (command_name e.bson b.cmd ≡ ok name)
          × Cleared
              (c.read_only || not (may e u s c))
              (mongo_read_allowed name)
              (mongo_needs_confirm name)
              u.admin
              b.confirm
          × ((open_client e mongo s c).1 ≡ ok h)
          × ((api_mongo_cmd e u req id body s).0.calls
              ≡ command_made h (mongo_command b.db b.cmd) ∷ s.calls))
unfolding api_mongo_cmd
api_mongo_cmd_lem e u req id body s = elim (Bool-cases (csrf_ok e req)) [
  | inr t ↦ inl (rw t (refl, inl refl))
  | inl t ↦ elim (Result-cases (find_conn e u id s)) [
    | inr (x, f) ↦ inl (rw (t, f) (refl, inl refl))
    | inl (c, f) ↦ elim (Option-cases body) [
      | inl b ↦ inl (rw (t, f, b) (refl, inl refl))
      | inr (b, g) ↦ elim (Bool-cases (given (trim_space b.db))) [
        | inr d ↦ inl (rw (t, f, g, d) (refl, inl refl))
        | inl d ↦ elim (mongo_on-Cleared e u id c b (command_name e.bson b.cmd) s f) [
          | inl same ↦ inl (let same' = rw f at same in rw (t, f, g, d) same')
          | inr (name, h, parsed, cleared, o, calls) ↦
              inr (c, b, name, h, t, f, g, parsed, cleared, o, rw (t, f, g, d) calls)
        ]
      ]
    ]
  ]
]
