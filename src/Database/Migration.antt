-- ===== src/Database/Migration.antt =====
-- What a repeated `Migrate` of beatstream/internal/db/postgres.go does.
use system_design_lab.Prelude.{
  ℕ, suc, String, Bool, true, false, Option, none, some, List, [], ◌∷◌, ◌++◌, map, elem,
  elem-append, ◌==◌, ◌&&◌, text_eq, ==-refl, ◌≡◌, refl, sym, ap, ◌∙◌, inl, inr, arith, Bool-cases,
  Option-cases,
}
use mathlib.Core.Path.{subst}
use text.Mathlib.TextEquality.{eq_iff}
use system_design_lab.Prelude.Assoc.{get, put, get-put}
use system_design_lab.Database.Schema.{
  Column, Statement, create_table, add_column, create_index, Schema, columns_of, has_table,
  has_column, has_columns, has_index, refers_well, run, exec, migrate_from, migrations, migrate,
}

-- A statement whose effect is there.
abbrev has : Statement → Schema → Bool
has (create_table t cs) s = has_table t s
has (add_column t c) s = has_column t c.name s
has (create_index i t cs) s = has_table t s && (has_columns t cs s && has_index i s)

-- Nothing of a schema is gone in another.
pub record Grows (s s' : Schema) : Type 0 where
  pub tables : (t : String) → has_table t s ≡ true → has_table t s' ≡ true
  pub columns : (t c : String) → has_column t c s ≡ true → has_column t c s' ≡ true
  pub indexes : (i : String) → has_index i s ≡ true → has_index i s' ≡ true

Grows-refl : (s : Schema) → Grows s s
Grows-refl s = record { tables = λ t h. h; columns = λ t c h. h; indexes = λ i h. h }

Grows-trans : {s s' s'' : Schema} → Grows s s' → Grows s' s'' → Grows s s''
Grows-trans g h = record {
  tables = λ t e. h.tables t (g.tables t e);
  columns = λ t c e. h.columns t c (g.columns t c e);
  indexes = λ i e. h.indexes i (g.indexes i e);
}

put_table-Grows :
    (s : Schema) (t : String) (cs : List Column)
    → ((c : String) → has_column t c s ≡ true → elem c (map (λ d. d.name) cs) ≡ true)
    → Grows s (record s { tables = put s.tables t cs })
put_table-Grows s t cs kept = record {
  tables = λ u h. ground (arith, get-put s.tables t u cs, h);
  columns = λ u c h. elim (Bool-cases (t == u)) [
    | inl same ↦
        let at : t ≡ u = (eq_iff t u).0 same in
        let there : elem c (map (λ d. d.name) cs) ≡ true = kept c (rw at h) in
        rw (get-put s.tables t u cs, same) there
    | inr other ↦ rw (get-put s.tables t u cs, other) h
  ];
  indexes = λ i h. h;
}

some_inj : {A : Type 0} {a b : A} → some a ≡ some b → a ≡ b
some_inj h = cc

-- Columns need their table.
has_column-has_table : (t c : String) (s : Schema) → has_column t c s ≡ true → has_table t s ≡ true
unfolding elem
has_column-has_table t c s h = elim (Option-cases (get s.tables t)) [
  | inl missing ↦ absurd (ground (arith, h, missing))
  | inr (cs, e) ↦ rw e
]

new_table-Grows :
    (t : String) (cs : List Column) (s : Schema)
    → has_table t s ≡ false
    → Grows s (record s { tables = put s.tables t cs })
new_table-Grows t cs s absent =
    put_table-Grows s t cs (λ c h. absurd (ground (arith, absent, has_column-has_table t c s h)))

names_append :
    (cs : List Column) (c : Column)
    → map (λ b. b.name) (cs ++ (c ∷ [])) ≡ map (λ b. b.name) cs ++ (c.name ∷ [])
names_append [] c = refl
names_append (b ∷ cs) c = ap (◌∷◌ b.name) (names_append cs c)

new_column-Grows :
    (t : String) (c : Column) (cs : List Column) (s : Schema)
    → get s.tables t ≡ some cs
    → Grows s (record s { tables = put s.tables t (cs ++ (c ∷ [])) })
new_column-Grows t c cs s e =
    put_table-Grows s t (cs ++ (c ∷ []))
      (λ d h. added d (subst (λ o. elem d (columns_of o) ≡ true) e h))
  where
    added :
        (d : String)
        → elem d (map (λ b. b.name) cs) ≡ true
        → elem d (map (λ b. b.name) (cs ++ (c ∷ []))) ≡ true
    added d h = rw (names_append cs c, elem-append d (map (λ b. b.name) cs) (c.name ∷ []), h) refl

new_index-Grows : (i t : String) (s : Schema) → Grows s (record s { indexes = put s.indexes i t })
new_index-Grows i t s = record {
  tables = λ u h. h;
  columns = λ u c h. h;
  indexes = λ j h. ground (arith, get-put s.indexes i j t, h);
}

-- What has come of a statement.
abbrev After : Statement → Schema → Option Schema → Type 0
After st s none = Unit
After st s (some s') = Grows s s' × (has st s' ≡ true)

new_table-After :
    (t : String) (cs : List Column) (s : Schema)
    → has_table t s ≡ false
    → After (create_table t cs) s (some (record s { tables = put s.tables t cs }))
new_table-After t cs s absent =
    (new_table-Grows t cs s absent, rw (get-put s.tables t t cs, ==-refl t) refl)

new_column-After :
    (t : String) (c : Column) (cs : List Column) (s : Schema)
    → get s.tables t ≡ some cs
    → After (add_column t c) s (some (record s { tables = put s.tables t (cs ++ (c ∷ [])) }))
unfolding elem
new_column-After t c cs s e = (
  new_column-Grows t c cs s e,
  rw
      (
        get-put s.tables t t (cs ++ (c ∷ [])),
        ==-refl t,
        names_append cs c,
        elem-append c.name (map (λ b. b.name) cs) (c.name ∷ []),
        ==-refl c.name,
      )
      (ground arith),
)

&&-both : {a b : Bool} → (a && b) ≡ true → (a ≡ true) × (b ≡ true)
&&-both {a = true} h = (refl, h)
&&-both {a = false} h = cc

columns-Grows :
    {s s' : Schema} (t : String) (cs : List String)
    → Grows s s'
    → has_columns t cs s ≡ true
    → has_columns t cs s' ≡ true
columns-Grows t [] g h = refl
columns-Grows t (c ∷ cs) g h =
    let (first, rest) = &&-both h in rw (g.columns t c first, columns-Grows t cs g rest)

new_index-After :
    (i t : String) (cs : List String) (s : Schema)
    → (has_table t s && has_columns t cs s) ≡ true
    → After (create_index i t cs) s (some (record s { indexes = put s.indexes i t }))
new_index-After i t cs s fits =
    let both : (has_table t s ≡ true) × (has_columns t cs s ≡ true) = &&-both fits in
    let grown = new_index-Grows i t s in
    (grown, rw (both.0, columns-Grows t cs grown both.1, get-put s.indexes i i t, ==-refl i) refl)

run-After : (st : Statement) (s : Schema) → After st s (run st s)
unfolding run
run-After (create_table t cs) s = elim (Bool-cases (has_table t s)) [
  | inl there ↦ rw (there, run) (Grows-refl s, there)
  | inr absent ↦ elim (Bool-cases (refers_well t s cs)) [
    | inl well ↦ rw (absent, run, well) (new_table-After t cs s absent)
    | inr ill ↦ rw (absent, run, ill) tt
  ]
]
run-After (add_column t c) s = elim (Option-cases (get s.tables t)) [
  | inl missing ↦ rw (missing, run) tt
  | inr (cs, e) ↦ elim (Bool-cases (elem c.name (map (λ d. d.name) cs))) [
    | inl there ↦ rw (e, run, there) (Grows-refl s, rw e there)
    | inr absent ↦ rw (e, run, absent) (new_column-After t c cs s e)
  ]
]
run-After (create_index i t cs) s = elim (Bool-cases (has_table t s && has_columns t cs s)) [
  | inr missing ↦ rw (missing, run) tt
  | inl fits ↦ elim (Bool-cases (has_index i s)) [
    | inl there ↦ rw (fits, run, there) (Grows-refl s, ground (arith, fits, there))
    | inr absent ↦ rw (fits, run, absent) (new_index-After i t cs s fits)
  ]
]

-- A statement whose effect is there changes nothing.
run_again : (st : Statement) (s : Schema) → has st s ≡ true → run st s ≡ some s
unfolding run elem
run_again (create_table t cs) s h = rw (h, run)
run_again (add_column t c) s h = elim (Option-cases (get s.tables t)) [
  | inl missing ↦ absurd (ground (arith, h, missing))
  | inr (cs, e) ↦ rw (e, run, subst (λ o. elem c.name (columns_of o) ≡ true) e h)
]
run_again (create_index i t cs) s h =
    let fits : (has_table t s && has_columns t cs s) ≡ true = ground (arith, h) in
    let there : has_index i s ≡ true = ground (arith, h) in rw (fits, run, there)

abbrev has_all : List Statement → Schema → Bool
has_all [] s = true
has_all (st ∷ sts) s = has st s && has_all sts s

has-Grows : {s s' : Schema} (st : Statement) → Grows s s' → has st s ≡ true → has st s' ≡ true
has-Grows (create_table t cs) g h = g.tables t h
has-Grows (add_column t c) g h = g.columns t c.name h
has-Grows (create_index i t cs) g h =
    let (table, rest) = &&-both h in
    let (columns, index) = &&-both rest in
    rw (g.tables t table, columns-Grows t cs g columns, g.indexes i index)

has_all-Grows :
    {s s' : Schema} (sts : List Statement)
    → Grows s s'
    → has_all sts s ≡ true
    → has_all sts s' ≡ true
has_all-Grows [] g h = refl
has_all-Grows (st ∷ sts) g h =
    let (first, rest) = &&-both h in rw (has-Grows st g first, has_all-Grows sts g rest)

exec_again : (sts : List Statement) (s : Schema) → has_all sts s ≡ true → exec sts s ≡ some s
unfolding exec
exec_again [] s h = refl
exec_again (st ∷ sts) s h =
    let (first, rest) = &&-both h in rw (run_again st s first, exec) (exec_again sts s rest)

exec-Grows :
    (sts : List Statement) (s : Schema) {s' : Schema}
    → exec sts s ≡ some s'
    → Grows s s' × (has_all sts s' ≡ true)
unfolding exec
exec-Grows [] s h = (subst (Grows s) (some_inj h) (Grows-refl s), refl)
exec-Grows (st ∷ sts) s {s' = s'} h = elim (Option-cases (run st s)) [
  | inl none_left ↦
      let nothing : exec (st ∷ sts) s ≡ none = rw (none_left, exec) refl in cc (nothing, h)
  | inr (s1, e) ↦
      let (first, there) = subst (After st s) e (run-After st s) in
      let same : exec (st ∷ sts) s ≡ exec sts s1 = rw (e, exec) refl in
      let (later, rest) = exec-Grows sts s1 (sym same ∙ h) in
      (Grows-trans first later, rw (has-Grows st later there, rest))
]

migrate_from-Grows :
    (fails : ℕ → Bool) (k : ℕ) (ms : List (List Statement)) (s : Schema)
    → Grows s (migrate_from fails k ms s).1
unfolding migrate_from
migrate_from-Grows fails k [] s = Grows-refl s
migrate_from-Grows fails k (m ∷ ms) s = elim (Bool-cases (fails k)) [
  | inl down ↦ rw (down, migrate_from) (Grows-refl s)
  | inr up ↦ elim (Option-cases (exec m s)) [
    | inl refused ↦ rw (up, migrate_from, refused) (Grows-refl s)
    | inr (s1, e) ↦
        rw (up, migrate_from, e)
          (Grows-trans (exec-Grows m s e).0 (migrate_from-Grows fails (suc k) ms s1))
  ]
]

-- One migration that succeeds, with PostgreSQL answering or not.
migrate_on :
    (fails : ℕ → Bool) (k : ℕ) (m : List Statement) (ms : List (List Statement)) (s : Schema)
    {s1 : Schema}
    → fails k ≡ false
    → exec m s ≡ some s1
    → migrate_from fails k (m ∷ ms) s ≡ migrate_from fails (suc k) ms s1
unfolding migrate_from
migrate_on fails k m ms s up e = rw (up, migrate_from, e) refl

migrate_from_again :
    (fails : ℕ → Bool) (k j : ℕ) (ms : List (List Statement)) (s : Schema)
    → migrate_from (λ i. false) j ms (migrate_from fails k ms s).1
      ≡ migrate_from (λ i. false) j ms s
unfolding migrate_from
migrate_from_again fails k j [] s = refl
migrate_from_again fails k j (m ∷ ms) s =
    let again : Schema → Bool × Schema = migrate_from (λ i. false) j (m ∷ ms) in
    elim (Bool-cases (fails k)) [
      | inl down ↦
          let stopped : (migrate_from fails k (m ∷ ms) s).1 ≡ s = rw (down, migrate_from) refl in
          ap again stopped
      | inr up ↦ elim (Option-cases (exec m s)) [
        | inl refused ↦
            let stopped : (migrate_from fails k (m ∷ ms) s).1 ≡ s =
              rw (up, migrate_from, refused) refl in
            ap again stopped
        | inr (s1, e) ↦
            let last = (migrate_from fails (suc k) ms s1).1 in
            let there =
              has_all-Grows m (migrate_from-Grows fails (suc k) ms s1) (exec-Grows m s e).1 in
            ap (λ r. again r.1) (migrate_on fails k m ms s up e)
            ∙ migrate_on (λ i. false) j m ms last refl (exec_again m last there)
            ∙ migrate_from_again fails (suc k) (suc j) ms s1
            ∙ sym (migrate_on (λ i. false) j m ms s refl e)
      ]
    ]

-- However far a migration came before it failed, a later one to which PostgreSQL answers has the
-- result, and leaves the schema, that it would have had alone; so a repeated one changes nothing.
pub migrate_again :
    (fails : ℕ → Bool) (s : Schema)
    → migrate (λ i. false) (migrate fails s).1 ≡ migrate (λ i. false) s
unfolding migrate
migrate_again fails s = migrate_from_again fails 0 0 migrations s
