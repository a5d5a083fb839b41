-- ===== src/Web/Admin.antt =====
-- internal/web/api_audit.go: the audit log and the re-encryption of the stored passwords.
pub mod Rotation
use verix_dbm.Base.{
  ℕ, suc, Bool, true, false, not, ◌||◌, none, some, List, [], ◌∷◌, ◌++◌, map, ◌==◌, if◌then◌else◌,
  Bytes, codes, str_eq, format_int, Result, ok, err,
}
use verix_dbm.Auth.Roles.{User}
use verix_dbm.Auth.Sessions.{Request}
use verix_dbm.Crypto.{CryptoError, reencrypt}
use verix_dbm.Store.{Connection, Audit, list_audit, iter_audit, update_password_enc}
use verix_dbm.Store.Grants.{list_connections}
use verix_dbm.Registry.{forget}
use verix_dbm.Sql.{given}
use verix_dbm.Web.Responses.{Response, number, text, audit_rows, csv_file, answer, api_err}
use verix_dbm.Web.Export.{csv_safe}
use verix_dbm.Web.Site.{Env, Site, audited}
use verix_dbm.Web.Gates.{require_admin}

unfoldable pub api_audit : User → Site → Site × Response
api_audit u s =
    if not u.admin
    then (s, api_err 403 "admin required")
    else (s, answer (("rows", audit_rows (list_audit s.store 200)) ∷ []))

abbrev pub format_bool : Bool → Bytes
format_bool b = if b then codes "true" else codes "false"

-- A line of the log in a CSV file.
unfoldable pub audit_line : Env → Audit → List Bytes
audit_line e a =
    e.timestamp a.ts
    ∷ csv_safe a.user
    ∷ format_int a.conn_id
    ∷ csv_safe a.action
    ∷ csv_safe a.detail
    ∷ format_bool a.success
    ∷ []

abbrev pub audit_header : List Bytes
audit_header = map codes ("ts" ∷ "user" ∷ "conn_id" ∷ "action" ∷ "detail" ∷ "success" ∷ [])

-- The whole log, oldest first; a format that is not given is that of one JSON object per line.
unfoldable pub api_audit_export : Env → User → Bytes → Site → Site × Response
unfolding audit_line
api_audit_export e u format s =
    if not u.admin
    then (s, api_err 403 "admin required")
    else if not (given format) || str_eq format (codes "jsonl")
    then (s, answer (("audit.jsonl", audit_rows (iter_audit s.store (λ a. a))) ∷ []))
    else if str_eq format (codes "csv")
    then (
      s,
      answer (
          ("file", csv_file (codes "audit.csv") (audit_header ∷ iter_audit s.store (audit_line e)))
          ∷ []),
    )
    else (s, api_err 400 "format must be 'jsonl' or 'csv'")

pub record Counts : Type 0 where
  pub checked : ℕ
  pub rewritten : ℕ
  pub failed : ℕ

abbrev pub Progress : Type 0
Progress = Site × Counts

unfoldable pub rewrite_with : Connection → Progress → Result CryptoError (Bytes × Bool) → Progress
rewrite_with c (s, n) (err error) = (s, record n { failed = suc n.failed })
rewrite_with c (s, n) (ok (enc, false)) = (s, n)
rewrite_with c (s, n) (ok (enc, true)) = (
  record s { store = update_password_enc s.store c.id enc; registry = forget s.registry c.id },
  record n { rewritten = suc n.rewritten },
)

-- One round of the loop in `apiReencrypt`.
unfoldable pub reencrypt_one : Env → Connection → Progress → Progress
unfolding rewrite_with
reencrypt_one e c (s, n) =
    if given c.password_enc
    then rewrite_with c (s, record n { checked = suc n.checked })
        (reencrypt e.lib e.box (e.nonce n.checked) c.password_enc)
    else (s, n)

unfoldable pub reencrypt_all : Env → List Connection → Progress → Progress
unfolding reencrypt_one
reencrypt_all e [] p = p
reencrypt_all e (c ∷ cs) p = reencrypt_all e cs (reencrypt_one e c p)

counts_text : Env → Counts → Bytes
counts_text e n =
    codes "key="
    ++ e.box.primary_id
    ++ codes " checked="
    ++ format_int n.checked
    ++ codes " rewritten="
    ++ format_int n.rewritten
    ++ codes " failed="
    ++ format_int n.failed

unfoldable pub finish_reencrypt : Env → User → Progress → Site × Response
unfolding counts_text
finish_reencrypt e u (s, n) = (
  audited e u 0 (codes "reencrypt") (counts_text e n) (n.failed == 0) s,
  answer (
      ("primaryKey", text e.box.primary_id)
      ∷ ("checked", number n.checked)
      ∷ ("rewritten", number n.rewritten)
      ∷ ("failed", number n.failed)
      ∷ []),
)

unfoldable pub api_reencrypt : Env → User → Request → Site → Site × Response
unfolding reencrypt_all finish_reencrypt
api_reencrypt e u req s = elim (require_admin e u req) [
  | some r ↦ (s, r)
  | none ↦ finish_reencrypt e u (
      reencrypt_all e (list_connections s.store)
        (s, record { checked = 0; rewritten = 0; failed = 0 }))
]
