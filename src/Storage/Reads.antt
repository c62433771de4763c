-- ===== src/Storage/Reads.antt =====
-- Which statements leave the tables as they are: what the database answers may be used up.
use zkevm_bridge_service.Base.{
  ℕ, ◌≡◌, refl, ap, ◌∙◌, List, [], ◌∷◌, Bool, true, false, Result, ok, err, panic,
}
use zkevm_bridge_service.Base.Keeps.{Keeps, keeps_rules}
use zkevm_bridge_service.Bridgectrl.Keccak.{Keccak}
use zkevm_bridge_service.Storage.Tables.{Db, answer, serve}
use zkevm_bridge_service.Storage.Trees.{
  get_root, get_node, same_digest, counted, get_last_deposit_count,
}
use zkevm_bridge_service.Storage.ExitRoots.{get_l1_exit_root_by_ger, get_l2_exit_roots_by_ger}

-- The database without its coming answers.
abbrev pub tables : {D : Type 0} → Db D → Db D
tables db = record db { faults = [] }

module _ {D : Type 0} where
  answer-tables : (fs : List Bool) (db : Db D) → tables (answer fs db).1 ≡ tables db
  answer-tables [] db = refl
  answer-tables (true ∷ fs) db = refl
  answer-tables (false ∷ fs) db = refl

  pub serve-tables : Keeps tables (serve {D = D})
  unfolding serve
  serve-tables = record { at = λ db. answer-tables db.faults db }

module _ {D : Type 0} ⦃k : Keccak D⦄ where
  pub get_root-tables : (cnt network : ℕ) → Keeps tables (get_root {D = D} cnt network)
  unfolding get_root
  get_root-tables cnt network = search (keeps_rules, serve-tables)

  pub get_node-tables : (key : D) → Keeps tables (get_node key)
  unfolding get_node
  get_node-tables key = search (keeps_rules, serve-tables)

  counted-tables : (network : ℕ) (r : Result (Unit {0}) × Db D) → (counted network r).1 ≡ r.1
  counted-tables network (ok _, db) = refl
  counted-tables network (err e, db) = refl
  counted-tables network (panic, db) = refl

  pub get_last_deposit_count-tables :
      (network : ℕ) → Keeps tables (get_last_deposit_count {D = D} network)
  unfolding get_last_deposit_count
  get_last_deposit_count-tables network = record {
    at = λ db. ap tables (counted-tables network (serve db)) ∙ serve-tables.at db;
  }

  pub get_l1_exit_root_by_ger-tables : (ger : D) → Keeps tables (get_l1_exit_root_by_ger ger)
  unfolding get_l1_exit_root_by_ger
  get_l1_exit_root_by_ger-tables ger = search (keeps_rules, serve-tables)

  pub get_l2_exit_roots_by_ger-tables : (ger : D) → Keeps tables (get_l2_exit_roots_by_ger ger)
  unfolding get_l2_exit_roots_by_ger
  get_l2_exit_roots_by_ger-tables ger = search (keeps_rules, serve-tables)

  pub same_digest-eq : (a b : D) → same_digest a b ≡ true → a ≡ b
  unfolding same_digest
  same_digest-eq a b h = decided (k.same a b) h
    where
      decided :
          (d : Dec (a ≡ b)) → (elim d as (λ _. Bool) [ yes _ ↦ true | no _ ↦ false ]) ≡ true → a ≡ b
      decided (yes same) h = same
      decided (no other) h = cc
