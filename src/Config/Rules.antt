-- ===== src/Config/Rules.antt =====
-- The dispatch of a rule over a table.
use snuffleupagus.Base.{◌≡◌, List, ◌∷◌, some, arith}
use snuffleupagus.Config.{
  Status, ZendResult, Handler, Table, SpParsedKeyword, find_handler, sp_process_rule,
}

module _ {S : Type 0} (table : Table S) where
  -- A keyword whose handler gives SP_PARSER_STOP makes the dispatch succeed with the state of that
  -- handler, whatever keywords stand behind it.
  pub sp_process_rule-stop :
      (k : SpParsedKeyword) (func : Handler S) (rule : List SpParsedKeyword) (s t : S)
      → find_handler k.kw table ≡ some func
      → func k rule s ≡ (Status.stop, t)
      → sp_process_rule table (k ∷ rule) s ≡ (ZendResult.succeeded, t)
  unfolding sp_process_rule
  sp_process_rule-stop k func rule s t found stops = ground arith
