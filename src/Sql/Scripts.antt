-- ===== src/Sql/Scripts.antt =====
-- `ExecScript` of the engines whose DDL is transactional: internal/postgres/ddl.go and
-- internal/sqlite/sqlite.go.
use verix_dbm.Base.{
  ◌≡◌, refl, ap, ◌∙◌, inl, inr, Bool, true, false, not, Option, none, some, List, [], ◌∷◌, ◌++◌,
  map, if◌then◌else◌, Bool-cases, Option-cases, All, keep_if, keep_if-nil, keep_if-cons, Bytes,
  codes, str_eq,
}
use verix_dbm.GoStrings.{trim_space}

-- A database driver, over the states of the database and those of a transaction: a statement also
-- tells whether there was no error. A statement may end the transaction; what a rollback does then is
-- up to the driver.
pub record Driver (D T : Type 0) : Type 0 where
  pub begin : D → Option T
  pub exec : T → Bytes → T × Bool
  pub commit : T → D × Bool
  pub rollback : T → D

-- The statements with which a transaction of the Postgres engine begins.
abbrev pub postgres_settings : List Bytes
postgres_settings = codes "SET TRANSACTION READ WRITE" ∷ codes "SET statement_timeout = '30s'" ∷ []

module _ {D T : Type 0} (driver : Driver D T) where
  -- The loop over the statements, and the one that failed.
  unfoldable pub run_statements : T → List Bytes → T × Option Bytes
  run_statements t [] = (t, none)
  run_statements t (s ∷ stmts) =
      let text = trim_space s in
      let skipped = run_statements t stmts in
      let rest = run_statements (driver.exec t text).0 stmts in
      if str_eq text []
      then skipped
      else if (driver.exec t text).1
      then rest
      else ((driver.exec t text).0, some text)

  -- All of the statements, as they are, one after the other, up to one that fails.
  unfoldable pub exec_all : T → List Bytes → T × Bool
  exec_all t [] = (t, true)
  exec_all t (s ∷ stmts) =
      let rest = exec_all (driver.exec t s).0 stmts in
      if (driver.exec t s).1 then rest else ((driver.exec t s).0, false)

  -- A failed script is rolled back, and any other is committed.
  unfoldable pub end_transaction : T × Option Bytes → D × Bool
  end_transaction (t, some s) = (driver.rollback t, false)
  end_transaction (t, none) = driver.commit t

  after_settings : T × Bool → List Bytes → D × Bool
  unfolding run_statements end_transaction
  after_settings (t, false) stmts = (driver.rollback t, false)
  after_settings (t, true) stmts = end_transaction (run_statements t stmts)

  -- The database afterwards, and whether there was no error. The settings come before the statements.
  unfoldable pub exec_script : List Bytes → D → List Bytes → D × Bool
  unfolding exec_all after_settings
  exec_script settings db stmts = elim (driver.begin db) [
    | none ↦ (db, false)
    | some t ↦ after_settings (exec_all t settings) stmts
  ]

  -- The statements of a script, without the blank ones.
  unfoldable pub wanted : List Bytes → List Bytes
  wanted stmts = keep_if (λ (s : Bytes). not (str_eq s [])) (map trim_space stmts)

  -- The end of a transaction in which all statements went well, or not.
  abbrev ended : T × Bool → D × Bool
  ended (t, false) = (driver.rollback t, false)
  ended (t, true) = driver.commit t

  -- The database that is committed, or the one before.
  abbrev pub all_or_nothing : D → T × Bool → D × Bool
  all_or_nothing saved (t, false) = (saved, false)
  all_or_nothing saved (t, true) =
      if (driver.commit t).1 then ((driver.commit t).0, true) else (saved, false)

  run_statements-exec_all :
      (t : T) (stmts : List Bytes)
      → end_transaction (run_statements t stmts) ≡ ended (exec_all t (wanted stmts))
  unfolding run_statements exec_all wanted end_transaction
  run_statements-exec_all t [] = rw keep_if-nil refl
  run_statements-exec_all t (s ∷ stmts) = elim (Bool-cases (str_eq (trim_space s) [])) [
    | inl e ↦ rw (run_statements, e, keep_if-cons, e) (run_statements-exec_all t stmts)
    | inr e ↦ elim (Bool-cases (driver.exec t (trim_space s)).1) [
      | inr n ↦ rw (run_statements, e, n, keep_if-cons, e) (rw (exec_all, n) refl)
      | inl n ↦
          rw (run_statements, e, n, keep_if-cons, e)
            (rw (exec_all, n) (run_statements-exec_all (driver.exec t (trim_space s)).0 stmts))
    ]
  ]

  after_settings-exec_all :
      (t : T) (settings stmts : List Bytes)
      → after_settings (exec_all t settings) stmts ≡ ended (exec_all t (settings ++ wanted stmts))
  unfolding after_settings exec_all
  after_settings-exec_all t [] stmts = run_statements-exec_all t stmts
  after_settings-exec_all t (s ∷ ss) stmts = elim (Bool-cases (driver.exec t s).1) [
    | inr n ↦ rw (exec_all, n) refl
    | inl n ↦ rw (exec_all, n) (after_settings-exec_all (driver.exec t s).0 ss stmts)
  ]

  -- What the transactions of a database promise as long as no statement ends them: `open_on db t`
  -- says that `t` is in the transaction that was begun at `db`, and `stays s` that the statement does
  -- not end a transaction.
  pub record IsTransactional (open_on : D → T → Type 0) (stays : Bytes → Bool) : Type 0 where
    pub begins : (db : D) (t : T) → driver.begin db ≡ some t → open_on db t
    pub goes_on :
        (db : D) (t : T) (s : Bytes)
        → stays s ≡ true
        → open_on db t
        → open_on db (driver.exec t s).0
    pub rolls_back : (db : D) (t : T) → open_on db t → driver.rollback t ≡ db
    pub commits :
        (db : D) (t : T) → open_on db t → (driver.commit t).1 ≡ false → (driver.commit t).0 ≡ db

  module _ (open_on : D → T → Type 0) (stays : Bytes → Bool)
      (laws : IsTransactional open_on stays) where
    exec_all-open :
        (db : D) (t : T) (ss : List Bytes)
        → All (λ (s : Bytes). stays s ≡ true) ss
        → open_on db t
        → open_on db (exec_all t ss).0
    unfolding exec_all
    exec_all-open db t [] a o = o
    exec_all-open db t (s ∷ ss) a o =
        let o' = laws.goes_on db t s a.0 o in
        elim (Bool-cases (driver.exec t s).1) [
          | inr n ↦ rw (exec_all, n) o'
          | inl n ↦ rw (exec_all, n) (exec_all-open db (driver.exec t s).0 ss a.1 o')
        ]

    ended-all_or_nothing : (db : D) (p : T × Bool) → open_on db p.0 → ended p ≡ all_or_nothing db p
    ended-all_or_nothing db (t, false) o = ap (λ d. (d, false)) (laws.rolls_back db t o)
    ended-all_or_nothing db (t, true) o = elim (Bool-cases (driver.commit t).1) [
      | inl n ↦ rw n (ap (λ b. ((driver.commit t).0, b)) n)
      | inr n ↦
          rw n (ap (λ b. ((driver.commit t).0, b)) n ∙ ap (λ d. (d, false)) (laws.commits db t o n))
    ]

    -- A script none of whose statements ends a transaction changes the database by all of its
    -- settings and all of its statements that are not blank, in their order, or not at all; it
    -- reports success exactly in the first case.
    pub exec_script_lem :
        (settings : List Bytes) (db : D) (stmts : List Bytes)
        → All (λ (s : Bytes). stays s ≡ true) (settings ++ wanted stmts)
        → exec_script settings db stmts ≡ (elim (driver.begin db) [
          | none ↦ (db, false)
          | some t ↦ all_or_nothing db (exec_all t (settings ++ wanted stmts))
        ])
    unfolding exec_script
    exec_script_lem settings db stmts a = elim (Option-cases (driver.begin db)) [
      | inl n ↦ rw (exec_script, n) refl
      | inr (t, n) ↦
          rw (exec_script, n)
            (after_settings-exec_all t settings stmts
              ∙ ended-all_or_nothing db (exec_all t (settings ++ wanted stmts))
                  (exec_all-open db t (settings ++ wanted stmts) a (laws.begins db t n)))
    ]
