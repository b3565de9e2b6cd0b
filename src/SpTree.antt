-- ===== src/SpTree.antt =====
-- src/sp_tree.h: parsed variables. `value` and `idx` belong to the node, `next` is the rest.
use snuffleupagus.Base.{Bytes}

pub data ElemType : Type 0 where
  undefined object array array_end interpreted_string literal_string class var constant : ElemType

pub data SpTree : Type 0 where
  null : SpTree
  node : ElemType → Bytes → SpTree → SpTree → SpTree
