-- ===== src/Expression.antt =====
-- crates/naome-foundation/src/construction.rs: the recipes that Foundation's axioms are written in.
use naome.Node.{FreeVariable}

pub data Expression (F : Type 0) : Type 0 where
  input : F → Expression F
  equal member : FreeVariable → FreeVariable → Expression F
  not : Expression F → Expression F
  implies : Expression F → Expression F → Expression F
  for_all : FreeVariable → Expression F → Expression F
  vacuous : Expression F → Expression F
  substitute : FreeVariable → FreeVariable → Expression F → Expression F
