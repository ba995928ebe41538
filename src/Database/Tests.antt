-- ===== src/Database/Tests.antt =====
-- The theorem on migrations at an interrupted one, from an empty database.
use system_design_lab.Prelude.{ℕ, Bool, true, false, [], ◌≡◌, refl, eqb, elem}
use system_design_lab.Prelude.Assoc.{get, put}
use system_design_lab.Database.Schema.{Schema, run, exec, migrate_from, migrate}
use system_design_lab.Database.Migration.{migrate_again}

abbrev nothing : Schema
nothing = record { tables = []; indexes = [] }

-- PostgreSQL does not answer to the fifth migration.
abbrev fifth_fails : ℕ → Bool
fifth_fails k = eqb k 4

migrated : (migrate (λ k. false) nothing).0 ≡ true
unfolding migrate migrate_from exec run get put elem
migrated = refl

interrupted : (migrate fifth_fails nothing).0 ≡ false
unfolding migrate migrate_from exec run get put elem
interrupted = refl

migrate_again_example :
    migrate (λ k. false) (migrate fifth_fails nothing).1 ≡ migrate (λ k. false) nothing
migrate_again_example = migrate_again fifth_fails nothing
