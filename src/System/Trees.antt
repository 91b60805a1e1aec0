-- ===== src/System/Trees.antt =====
-- A directory as a tree. `copy_dir_recursive` of src/process.rs walks the tree that stands at the
-- source when it starts.
use nylon_run.Prelude.{Text}

mutual
  pub data Tree : Type 0 where
    file : Tree
    dir : Entries → Tree

  pub data Entries : Type 0 where
    nil : Entries
    cons : Text → Tree → Entries → Entries
