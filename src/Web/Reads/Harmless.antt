-- ===== src/Web/Reads/Harmless.antt =====
-- The handlers that read a target make no call that may change it.
use verix_dbm.Base.{
  ℕ, ◌*◌, String, ◌≡◌, refl, ap, ◌∙◌, inl, inr, false, List, [], ◌∷◌, ◌++◌, Bool-cases,
  Option-cases, All, Bytes, codes, str_eq, Result-cases, Result, ok, err, wrapped, ℤ, pos,
}
use verix_dbm.Auth.Roles.{User}
use verix_dbm.Auth.Sessions.{Request}
use verix_dbm.Store.{Connection}
use verix_dbm.Registry.{Handle, OpenError}
use verix_dbm.Sql.Families.{family, family_redis, family_mongo}
use verix_dbm.Sql.Screens.{server_side_blocked}
use verix_dbm.Web.Responses.{Value}
use verix_dbm.Web.Site.{
  Env, Site, Call, Made, may_write, called, audited, browses, lists_databases, lists_schemas,
  lists_columns, lists_keys, lists_indexes, asks_comment, generates, open_engine, open_pool,
}
use verix_dbm.Web.Gates.{Passed, find_conn, may, api_sql}
use verix_dbm.Web.Gates.Passing.{api_sql-calls}
use verix_dbm.Web.Reads.{
  clamped_page, clamped_size, GridQuery, Read, reads_columns, reads_indexes, reads_keys, reads_grid,
  reads_export, reads_statement, reads_doc, reads_usages, reads_roles, api_grid, export_table,
  generator, document, api_doc, api_usages, read_target, refused_read, after_sql, serve_read,
}
use verix_dbm.Web.Explorer.{
  tree, open_mongo, api_explorer, FormQuery, prefill, api_ddl_form_prefill,
}

-- The calls `after` are those before and calls that cannot write.
abbrev pub Harmless : List Made → List Made → Type 0
Harmless before after =
    (new : List Made) × All (λ (m : Made). may_write m.call ≡ false) new × (after ≡ new ++ before)

none_new : (before after : List Made) → after ≡ before → Harmless before after
none_new before after k = ([], tt, k)

one_new :
    (before after : List Made) (m : Made)
    → may_write m.call ≡ false
    → after ≡ m ∷ before
    → Harmless before after
one_new before after m w k = (m ∷ [], (w, tt), k)

abbrev page_of : GridQuery → Handle → ℕ → ℤ → Made
page_of q h limit offset = record {
  handle = h;
  call = browses q.schema q.table q.filter q.order limit offset;
}

grid-Harmless :
    (e : Env) (u : User) (q : GridQuery) (c : Connection) (h : Handle) (s : Site)
    → Harmless s.calls (api_grid e u q c h s).0.calls
unfolding api_grid audited called may_write
grid-Harmless e u q c h s =
    elim (Bool-cases (server_side_blocked u c.kind (q.filter ∷ q.order ∷ []))) [
      | inl b ↦ rw (api_grid, b) (none_new s.calls s.calls refl)
      | inr b ↦
          (let size = clamped_size q.size in
            let m = page_of q h size (wrapped (clamped_page q.page * size)) in
            rw (api_grid, b) (one_new s.calls (m ∷ s.calls) m refl refl))
    ]

export-Harmless :
    (e : Env) (u : User) (q : GridQuery) (c : Connection) (h : Handle) (s : Site)
    → Harmless s.calls (export_table e u q c h s).0.calls
unfolding export_table audited called may_write
export-Harmless e u q c h s =
    let m = page_of q h 1000 (pos 0) in
    elim (Bool-cases (server_side_blocked u c.kind (q.filter ∷ q.order ∷ []))) [
      | inl b ↦ rw (export_table, b) (none_new s.calls s.calls refl)
      | inr b ↦ elim (Result-cases (e.target.table_of s.calls m)) [
        | inl (t, f) ↦ rw (export_table, b, f) (one_new s.calls (m ∷ s.calls) m refl refl)
        | inr (x, f) ↦ rw (export_table, b, f) (one_new s.calls (m ∷ s.calls) m refl refl)
      ]
    ]

doc-Harmless :
    (e : Env) (schema table : Bytes) (h : Handle) (s : Site)
    → Harmless s.calls (api_doc e schema table h s).0.calls
unfolding api_doc document called may_write
doc-Harmless e schema table h s =
    elim (Result-cases
      (e.target.columns_of s.calls (record { handle = h; call = lists_columns schema table }))) [
        | inr (x, f) ↦ rw (api_doc, f) (one_new s.calls _ _ refl refl)
        | inl (cols, f) ↦ (
          (record { handle = h; call = asks_comment schema table })
              ∷ (record { handle = h; call = lists_indexes schema table })
              ∷ (record { handle = h; call = lists_keys schema table })
              ∷ (record { handle = h; call = lists_columns schema table })
              ∷ [],
          (refl, (refl, (refl, (refl, tt)))),
          rw (api_doc, f) refl,
        )
      ]

read_target-Harmless :
    (e : Env) (u : User) (r : Read) (c : Connection) (h : Handle) (s : Site)
    → Harmless s.calls (read_target e u r c h s).0.calls
unfolding read_target api_usages called may_write
read_target-Harmless e u (reads_columns a b) c h s = one_new s.calls _ _ refl refl
read_target-Harmless e u (reads_indexes a b) c h s = one_new s.calls _ _ refl refl
read_target-Harmless e u (reads_keys a b) c h s = one_new s.calls _ _ refl refl
read_target-Harmless e u (reads_grid q) c h s = grid-Harmless e u q c h s
read_target-Harmless e u (reads_export q) c h s = export-Harmless e u q c h s
read_target-Harmless e u (reads_statement k a b) c h s = elim (Bool-cases (generator k)) [
  | inl g ↦ rw g (one_new s.calls _ (record { handle = h; call = generates k a b }) refl refl)
  | inr g ↦ rw g (none_new s.calls s.calls refl)
]
read_target-Harmless e u (reads_doc a b) c h s = doc-Harmless e a b h s
read_target-Harmless e u (reads_usages a b) c h s = one_new s.calls _ _ refl refl
read_target-Harmless e u reads_roles c h s = one_new s.calls _ _ refl refl

after_sql-Harmless :
    (e : Env) (u : User) (r : Read) (s : Site) (gate : Site × Passed)
    → gate.0.calls ≡ s.calls
    → Harmless s.calls (after_sql e u r gate).0.calls
unfolding after_sql
after_sql-Harmless e u r s (t, err response) k = none_new s.calls t.calls k
after_sql-Harmless e u r s (t, ok (c, h)) k =
    let (new, w, calls) = read_target-Harmless e u r c h t in
    (new, w, calls ∙ ap (λ cs. new ++ cs) k)

pub serve_read-Harmless :
    (e : Env) (u : User) (req : Request) (id : ℕ) (r : Read) (s : Site)
    → Harmless s.calls (serve_read e u req id r s).0.calls
unfolding serve_read
serve_read-Harmless e u req id r s = elim (Option-cases (refused_read e u req r)) [
  | inr (x, f) ↦ rw (serve_read, f) (none_new s.calls s.calls refl)
  | inl f ↦
      rw (serve_read, f) (after_sql-Harmless e u r s (api_sql e u id s) (api_sql-calls e u id s))
]

tree-Harmless :
    (e : Env) (kind : Bytes) (name : String) (call : Call) (s : Site)
    (p : Site × Result OpenError Handle)
    → may_write call ≡ false
    → p.0.calls ≡ s.calls
    → Harmless s.calls (tree e kind name call p).0.calls
unfolding tree called
tree-Harmless e kind name call s (t, err error) w k = none_new s.calls t.calls k
tree-Harmless e kind name call s (t, ok h) w k =
    one_new s.calls _ _ w (ap (λ cs. (record { handle = h; call = call }) ∷ cs) k)

pub explorer-Harmless :
    (e : Env) (u : User) (id : ℕ) (s : Site) → Harmless s.calls (api_explorer e u id s).0.calls
unfolding api_explorer open_mongo open_pool may_write
explorer-Harmless e u id s = elim (Result-cases (find_conn e u id s)) [
  | inr (x, f) ↦ rw (api_explorer, f) (none_new s.calls s.calls refl)
  | inl (c, f) ↦ elim (Bool-cases (str_eq (family c.kind) family_redis)) [
    | inl r ↦ rw (api_explorer, f, r) (none_new s.calls s.calls refl)
    | inr r ↦ elim (Bool-cases (str_eq (family c.kind) family_mongo)) [
      | inl m ↦
          rw (api_explorer, f, r, m)
            (tree-Harmless e (family c.kind) "databases" lists_databases s (open_mongo e s c) refl
              refl)
      | inr m ↦
          rw (api_explorer, f, r, m)
            (tree-Harmless e (family c.kind) "schemas" lists_schemas s (open_engine e s c) refl
              refl)
    ]
  ]
]

prefill-Harmless :
    (e : Env) (q : FormQuery) (fields : List (String × Value)) (s : Site)
    (p : Site × Result OpenError Handle)
    → p.0.calls ≡ s.calls
    → Harmless s.calls (prefill e q fields p).0.calls
unfolding prefill called may_write
prefill-Harmless e q fields s (t, err error) k = none_new s.calls t.calls k
prefill-Harmless e q fields s (t, ok h) k =
    let m : Made = record { handle = h; call = lists_columns q.schema q.table } in
    elim (Result-cases (e.target.columns_of t.calls m)) [
      | inl (cols, f) ↦ rw (prefill, f) (one_new s.calls _ m refl (ap (λ cs. m ∷ cs) k))
      | inr (x, f) ↦ rw (prefill, f) (one_new s.calls _ m refl (ap (λ cs. m ∷ cs) k))
    ]

pub form_prefill-Harmless :
    (e : Env) (u : User) (id : ℕ) (q : FormQuery) (s : Site)
    → Harmless s.calls (api_ddl_form_prefill e u id q s).0.calls
unfolding api_ddl_form_prefill open_pool
form_prefill-Harmless e u id q s = elim (Result-cases (find_conn e u id s)) [
  | inr (x, f) ↦ rw (api_ddl_form_prefill, f) (none_new s.calls s.calls refl)
  | inl (c, f) ↦ elim (Bool-cases (may e u s c)) [
    | inr w ↦ rw (api_ddl_form_prefill, f, w) (none_new s.calls s.calls refl)
    | inl w ↦ elim (Bool-cases (str_eq q.kind (codes "modify-column"))) [
      | inr k ↦ rw (api_ddl_form_prefill, f, w, k) (none_new s.calls s.calls refl)
      | inl k ↦
          rw (api_ddl_form_prefill, f, w, k) (prefill-Harmless e q _ s (open_engine e s c) refl)
    ]
  ]
]
