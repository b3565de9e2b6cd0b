-- ===== src/Tests/Scans.antt =====
-- Scans of configurations.
use snuffleupagus.Base.{
  ℕ, ◌+◌, ◌*◌, ◌-◌, ◌≡◌, refl, arith, List, [], ◌∷◌, ◌++◌, some, none, ℤ, pos, Bytes, codes, equals,
  Bool,
}
use snuffleupagus.Config.{SpParsedKeyword, ArgType, ZendResult}
use snuffleupagus.Ini.{find}
use snuffleupagus.Scanner.{Scan, Mode, Outcome, step, sp_config_scan, start}
use snuffleupagus.Scanner.Bounds.{IsBounded, Reaches, here, next, Reaches-IsBounded}
use snuffleupagus.Scanner.Condition.{SyOp}
use snuffleupagus.Scanner.Conditions.{between, under, condition-value}
use snuffleupagus.Scanner.Conditions.Words.{
  StandFor, none_left, then_word, is_number, is_variable, is_operator, is_bang, text, Word, numeral,
  name, is_call,
}
use snuffleupagus.Scanner.Lexer.{is_digit, is_alpha, is_word, is_blank}
use snuffleupagus.Scanner.Precedence.{Expr, operand, negate, binary, items}
use snuffleupagus.Scanner.Progress.{Becomes, step-Becomes}
use snuffleupagus.Scanner.Unterminated.{sp_config_scan-overrun}

-- `atoi` on digits, a PHP with the extension `ctype`, and the list of the rules that are processed.
value_of : ℕ → Bytes → ℕ
value_of n [] = n
value_of n (c ∷ s) = value_of (n * 10 + (c - b'0')) s

abbrev atoi : Bytes → ℤ
unfolding value_of
atoi s = pos (value_of 0 s)

abbrev has : Bytes → Bool
unfolding equals
has s = equals s (codes "ctype")

abbrev Rules : Type 0
Rules = List (List SpParsedKeyword)

abbrev collect : List SpParsedKeyword → Rules → ZendResult × Rules
collect rule rules = (ZendResult.succeeded, rules ++ rule ∷ [])

abbrev version : Bytes
version = codes "80300"

-- The `&&` binds tighter than the `==`, so that the second condition is false.
abbrev config : Bytes
config =
    codes
      "# a comment\n@set x \"7\" ;\nsp.a.b(\"c\\\")\").d() .e(x);\n@condition x < 9 && !extension_loaded(\"zip\");\nsp.f;\n@end_condition;\n@condition 1 == 2 && 0; sp.g(\"unseen\"); @end_condition;"

scans :
    sp_config_scan atoi has collect version (config ++ 0 ∷ []) []
    ≡ Outcome.returned ZendResult.succeeded (
        (record { kw = codes "a"; arg = none; argtype = ArgType.no_parens }
          ∷ record { kw = codes "b"; arg = some (codes "c\\\")"); argtype = ArgType.str }
          ∷ record { kw = codes "d"; arg = some []; argtype = ArgType.empty }
          ∷ record { kw = codes "e"; arg = some (codes "7"); argtype = ArgType.str }
          ∷ [])
        ∷ (record { kw = codes "f"; arg = none; argtype = ArgType.no_parens } ∷ [])
        ∷ [])
unfolding sp_config_scan value_of equals
scans = refl

abbrev fresh : Scan Rules
fresh = start atoi has collect version []

-- PHP_VERSION_ID >= 80000 && ! 0
abbrev sample : Expr
sample =
    binary SyOp.conjunction (binary SyOp.greater_equal (operand (pos 80300)) (operand (pos 80000)))
      (negate (operand (pos 0)))

-- PHP_VERSION_ID >= 80000&&!extension_loaded("zip")
abbrev words : List (Word × Bytes)
words =
    (name b'P' (codes "HP_VERSION_ID"), codes " ")
    ∷ (Word.operator SyOp.greater_equal, codes "  ")
    ∷ (numeral b'8' (codes "0000"), [])
    ∷ (Word.operator SyOp.conjunction, [])
    ∷ (Word.bang, [])
    ∷ (Word.call (codes "zip"), codes " ")
    ∷ []

words-StandFor : StandFor atoi has fresh.vars words (items sample)
unfolding is_digit is_alpha is_word is_blank find equals value_of
words-StandFor =
    then_word (is_variable version refl (ground arith) refl refl) (refl, tt)
      (then_word (is_operator refl) (refl, (refl, tt))
        (then_word (is_number refl (ground arith) refl) tt (
          then_word (is_operator refl) tt (
            then_word is_bang tt
              (then_word (is_call (refl, (refl, (refl, tt))) refl) (refl, tt) none_left)))))

condition-value_example :
    Becomes atoi has collect
      (codes "@condition " ++ text words (b';' ∷ codes "sp.a;"))
      (between atoi has collect fresh [])
      (codes "sp.a;")
      (under atoi has collect fresh (pos 1))
condition-value_example =
    condition-value atoi has collect sample words fresh [] (codes "sp.a;")
      (refl, omega arith, omega arith, (refl, omega arith, omega arith, tt, tt), (tt, refl))
      (omega arith) words-StandFor

second : Reaches atoi has collect fresh (record fresh { mode = Mode.rule })
unfolding step
second = next here b's' (codes "p.a;") refl

Reaches-IsBounded_example : IsBounded (record fresh { mode = Mode.rule })
Reaches-IsBounded_example =
    Reaches-IsBounded atoi has collect version [] (record fresh { mode = Mode.rule }) second

sp_config_scan-overrun_example :
    sp_config_scan atoi has collect version (10 ∷ codes "sp." ++ b'a' ∷ (codes "b" ++ 0 ∷ [])) []
    ≡ Outcome.overrun
unfolding is_alpha is_word step
sp_config_scan-overrun_example =
    sp_config_scan-overrun atoi has collect version (10 ∷ codes "sp.ab" ++ 0 ∷ []) [] b'a'
      (codes "b") fresh _
      (step-Becomes atoi has collect 10 (codes "sp.ab" ++ 0 ∷ []) fresh fresh 0 refl) refl
      (refl, tt) refl refl
