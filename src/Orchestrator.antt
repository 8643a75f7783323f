-- ===== src/Orchestrator.antt =====
-- src/testudo/orchestrator: the workflow model of workflow.py; the executor in the modules below.
pub mod Sort
pub mod Refs
pub mod Executor
use testudo.Prelude.{String, List, Option}
use testudo.Value.{Fields}

pub record Step : Type 0 where
  pub id : String
  pub uses : String
  pub needs : List String
  pub with_ : Fields
  pub when : Option String

pub record Workflow : Type 0 where
  pub name : String
  pub steps : List Step
