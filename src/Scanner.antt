-- ===== src/Scanner.antt =====
-- `sp_config_scan` of src/sp_config_scanner.re: the scanner of configuration files, with its actions.
-- Scanner/Lexer has its regular expressions, Scanner/Condition the stacks of its conditions. The
-- messages, and the number of the line that stands in them, are left out.
pub mod Bounds
pub mod Condition
pub mod Conditions
pub mod Lexer
pub mod Precedence
pub mod Progress
pub mod Unterminated
use snuffleupagus.Base.{
  ℕ, zero, suc, ◌+◌, ◌-◌, Bool, true, false, ◌&&◌, ◌||◌, List, [], ◌∷◌, ◌++◌, Option, none, some, ℤ,
  pos, leb, ◌==◌, if◌then◌else◌, is_set, length, take, drop, Bytes, codes, equals,
}
use snuffleupagus.Config.{SpParsedKeyword, ArgType, ZendResult}
use snuffleupagus.HashTable.{put}
use snuffleupagus.Ini.{find}
use snuffleupagus.Scanner.Condition.{
  SyOp, Stacks, stacks, truth, int_of, sy_push, sy_binary, sy_close, sy_finish,
}
use snuffleupagus.Scanner.Lexer.{
  InitToken, CondToken, OpToken, RuleToken, lex_init, lex_cond, lex_cond_op, lex_rule,
}

-- The start conditions of re2c.
pub data Mode : Type 0 where
  init cond cond_op rule : Mode

-- `cond_res_0` is `cond_res[0]` between conditions, `globals` what `process_rule` works on.
pub record Scan (G : Type 0) : Type 0 where
  pub mode : Mode
  pub vars : List (Bytes × Bytes)
  pub stack : Stacks
  pub cond_res_0 : ℤ
  pub condition_active : Bool
  pub parsed_rule : List SpParsedKeyword
  pub globals : G

-- Go on behind the token, or `goto out` with the result.
pub data Next (G : Type 0) : Type 0 where
  go : Scan G → Next G
  out : ZendResult → Scan G → Next G

-- What a scan comes to; `overrun` is a read behind the known memory.
pub data Outcome (G : Type 0) : Type 0 where
  returned : ZendResult → G → Outcome G
  overrun out_of_fuel : Outcome G

abbrev pub max_keywords : ℕ
max_keywords = 16

-- `zend_hash_str_update_ptr`.
unfoldable pub update : Bytes → Bytes → List (Bytes × Bytes) → List (Bytes × Bytes)
unfolding put find
update key v vars = if is_set (find key vars) then put key v vars else vars ++ (key, v) ∷ []

-- REJECT_NON_ASCII finds a byte.
unfoldable pub has_non_ascii : Bytes → Bool
has_non_ascii [] = false
has_non_ascii (c ∷ s) = leb 0x80 c || has_non_ascii s

-- `atoi`; whether PHP has an extension; and `process_rule`.
module _ {G : Type 0} (atoi : Bytes → ℤ) (extension_loaded : Bytes → Bool)
    (process_rule : List SpParsedKeyword → G → ZendResult × G) where
  abbrev failure : Scan G → Next G
  failure s = out ZendResult.failed s

  abbrev is_active : Scan G → Bool
  is_active s = truth s.cond_res_0

  -- <init>
  unfoldable pub on_init : InitToken → Scan G → Next G
  unfolding update
  on_init InitToken.space s = go s
  on_init InitToken.sp s = go (record s { parsed_rule = []; mode = Mode.rule })
  on_init InitToken.end s = out ZendResult.succeeded s
  on_init (InitToken.set key v) s =
      if is_active s then go (record s { vars = update key v s.vars }) else go s
  on_init InitToken.condition s =
      if s.condition_active
      then failure s
      else go
          (record s { condition_active = true; stack = stacks [] s.stack.ops; mode = Mode.cond })
  on_init InitToken.end_condition s =
      go (record s { cond_res_0 = pos 1; stack = stacks [] s.stack.ops; condition_active = false })
  on_init InitToken.message s = go s
  on_init InitToken.err s = if is_active s then failure s else go s
  on_init _ s = failure s

  -- What the macros leave of the stacks; an error goes to `out`.
  abbrev pub pushed : Mode → Scan G → Option Stacks → Next G
  pushed mode s none = failure s
  pushed mode s (some stack) = go (record s { stack = stack; mode = mode })

  abbrev with_res : Scan G → Option (List ℤ) → Option Stacks
  with_res s none = none
  with_res s (some res) = some (stacks res s.stack.ops)

  abbrev pub with_ops : Scan G → Option (List SyOp) → Option Stacks
  with_ops s none = none
  with_ops s (some ops) = some (stacks s.stack.res ops)

  abbrev pub operand : Scan G → ℤ → Next G
  unfolding sy_push
  operand s v = pushed Mode.cond_op s (with_res s (sy_push v s.stack.res))

  abbrev of_variable : Scan G → Option Bytes → Next G
  unfolding operand
  of_variable s none = failure s
  of_variable s (some text) = operand s (atoi text)

  abbrev of_call : Scan G → Bytes → Option Bytes → Next G
  unfolding operand
  of_call s name none = failure s
  of_call s name (some arg) =
      if equals name (codes "extension_loaded")
      then operand s (int_of (extension_loaded arg))
      else failure s

  -- <cond>
  unfoldable pub on_cond : CondToken → Scan G → Next G
  unfolding operand of_variable of_call sy_push equals find
  on_cond CondToken.space s = go s
  on_cond (CondToken.call name arg) s = of_call s name arg
  on_cond (CondToken.variable name) s = of_variable s (find name s.vars)
  on_cond (CondToken.number digits) s = operand s (atoi digits)
  on_cond CondToken.negation s = pushed Mode.cond s (with_ops s (sy_push SyOp.negation s.stack.ops))
  on_cond CondToken.open_paren s = pushed Mode.cond s (with_ops s (sy_push SyOp.paren s.stack.ops))
  on_cond CondToken.other s = failure s

  -- The first entry of the array, the last of the list.
  abbrev bottom : ℤ → List ℤ → ℤ
  bottom v [] = v
  bottom v (a ∷ res) = bottom a res

  abbrev pub finished : Scan G → Option (List ℤ) → Next G
  finished s none = failure s
  finished s (some res) =
      go
        (record s { stack = stacks res []; cond_res_0 = bottom s.cond_res_0 res; mode = Mode.init })

  -- <cond_op>
  unfoldable pub on_cond_op : OpToken → Scan G → Next G
  unfolding sy_binary sy_close sy_finish
  on_cond_op OpToken.space s = go s
  on_cond_op (OpToken.binary op) s = pushed Mode.cond s (sy_binary op s.stack)
  on_cond_op OpToken.close_paren s = pushed Mode.cond_op s (sy_close s.stack.ops s.stack.res)
  on_cond_op OpToken.semicolon s = finished s (sy_finish s.stack.ops s.stack.res)
  on_cond_op OpToken.other s = failure s

  abbrev pub keep : Scan G → Bytes → Option Bytes → ArgType → Next G
  keep s kw arg argtype = go (record s {
    parsed_rule = s.parsed_rule ++ (record { kw = kw; arg = arg; argtype = argtype } ∷ []);
  })

  abbrev pub keep_variable : Scan G → Bytes → Option Bytes → Next G
  keep_variable s kw none = failure s
  keep_variable s kw (some text) = keep s kw (some text) ArgType.str

  -- The argument between the parentheses of a keyword; two quotes at least are around a string.
  abbrev pub keep_argument : Scan G → Bytes → Option Bytes → Next G
  unfolding has_non_ascii find
  keep_argument s kw none = keep s kw none ArgType.no_parens
  keep_argument s kw (some []) = keep s kw (some []) ArgType.empty
  keep_argument s kw (some (c ∷ arg)) =
      if has_non_ascii (c ∷ arg)
      then failure s
      else if c == b'"'
      then keep s kw (some (take (length arg - 1) arg)) ArgType.str
      else keep_variable s kw (find (c ∷ arg) s.vars)

  abbrev rule_result : Scan G → ZendResult × G → Next G
  rule_result s (ZendResult.succeeded, g) = go (record s { globals = g; mode = Mode.init })
  rule_result s (ZendResult.failed, g) = failure (record s { globals = g })

  -- `end_of_rule`.
  unfoldable pub end_of_rule : Scan G → Next G
  end_of_rule s =
      if is_active s
      then rule_result s (process_rule s.parsed_rule s.globals)
      else go (record s { mode = Mode.init })

  -- <rule>
  unfoldable pub on_rule : RuleToken → Scan G → Next G
  unfolding keep_argument end_of_rule
  on_rule RuleToken.space s = go s
  on_rule (RuleToken.keyword kw arg) s =
      if is_active s
      then if length s.parsed_rule == max_keywords then failure s else keep_argument s kw arg
      else go s
  on_rule RuleToken.semicolon s = end_of_rule s
  on_rule RuleToken.nonascii s = failure s
  on_rule RuleToken.other s = end_of_rule s

  abbrev after {ℓ} : {T : Type ℓ} → (T → Scan G → Next G) → Scan G → T × ℕ → Next G × ℕ
  after act s (token, n) = (act token s, n)

  -- The token under the cursor and its action, with the length of the token without its first byte.
  abbrev pub dispatch : Mode → ℕ → Bytes → Scan G → Next G × ℕ
  unfolding on_init on_cond on_cond_op on_rule lex_init lex_cond lex_cond_op lex_rule
  dispatch Mode.init c memory s = after on_init s (lex_init c memory)
  dispatch Mode.cond c memory s = after on_cond s (lex_cond c memory)
  dispatch Mode.cond_op c memory s = after on_cond_op s (lex_cond_op c memory)
  dispatch Mode.rule c memory s = after on_rule s (lex_rule c memory)

  unfoldable pub step : ℕ → Bytes → Scan G → Next G × ℕ
  unfolding dispatch
  step c memory s = dispatch s.mode c memory s

  -- The scan of a memory; every token takes a byte.
  unfoldable pub scan_from : ℕ → Bytes → Scan G → Outcome G
  scan_from zero memory s = Outcome.out_of_fuel
  scan_from (suc fuel) [] s = Outcome.overrun
  scan_from (suc fuel) (c ∷ memory) s = elim ((step c memory s).0) [
    | out result s' ↦ Outcome.returned result s'.globals
    | go s' ↦ scan_from fuel (drop ((step c memory s).1) memory) s'
  ]

  -- The state at the start; `version` is PHP_VERSION_ID in digits.
  abbrev pub start : Bytes → G → Scan G
  start version g = record {
    mode = Mode.init;
    vars = (codes "PHP_VERSION_ID", version) ∷ [];
    stack = stacks [] [];
    cond_res_0 = pos 1;
    condition_active = false;
    parsed_rule = [];
    globals = g;
  }

  -- `data` is the memory from the text on: the text, its NUL, and what stands behind.
  unfoldable pub sp_config_scan : Bytes → Bytes → G → Outcome G
  unfolding scan_from step
  sp_config_scan version memory g = scan_from (length memory + 1) memory (start version g)
