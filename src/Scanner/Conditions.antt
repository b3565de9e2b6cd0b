-- ===== src/Scanner/Conditions.antt =====
-- The conditions of src/sp_config_scanner.re as text.
pub mod Words
use snuffleupagus.Base.{
  suc, ◌+◌, pos, equals, sym, ◌∙◌, if◌then◌else◌, ℕ, ◌≤◌, ◌≡◌, refl, ◌⊎◌, inl, inr, arith, Bool,
  true, false, List, [], ◌∷◌, ◌++◌, Option, none, some, ℤ, length, drop-length-append, ap, Bytes,
  codes, All, starts_with,
}
use snuffleupagus.Config.{ZendResult, SpParsedKeyword}
use snuffleupagus.Ini.{find}
use snuffleupagus.Scanner.{
  Mode, Scan, go, step, operand as push_operand, pushed, with_ops, on_cond, on_cond_op, on_init,
}
use snuffleupagus.Scanner.Condition.{
  int_of, SyOp, Stacks, stacks, max_conditions, and_then, and_then-some, sy_push, sy_binary,
  sy_finish,
}
use snuffleupagus.Scanner.Lexer.{
  CondToken, OpToken, is_blank, is_digit, is_alpha, is_word, span, followed, lex_cond, lex_cond_op,
}
use snuffleupagus.Scanner.Lexer.Words.{
  lex_cond-call, drop-called, called, span-before, lex_cond-number, lex_cond-variable, symbol,
}
use snuffleupagus.Scanner.Precedence.{
  Expr, IsGrammatical, value, size, Item, items, on_item, on_items, is_binary,
}
use snuffleupagus.Scanner.Precedence.Evaluate.{sy_finish-items}
use snuffleupagus.Scanner.Progress.{Becomes, Becomes-trans, step-Becomes}
use snuffleupagus.Scanner.Conditions.Words.{
  Word, spelled, text, before, behind, StandsFor, is_call, is_number, is_variable, is_bang, is_open,
  is_close, is_operator, StandFor, none_left, then_word, text-not_blank, text-Parts, gap-Parts,
  Parts, behind_operand, behind_sign, behind-cond, Follows, Follows-items, close_paren,
}

module _ {G : Type 0} (atoi : Bytes → ℤ) (extension_loaded : Bytes → Bool)
    (process_rule : List SpParsedKeyword → G → ZendResult × G) where
  -- The state inside of a condition.
  abbrev inside : Scan G → Mode → Stacks → Scan G
  inside s m stack = record s { mode = m; stack = stack }

  abbrev Goes : Bytes → Scan G → Bytes → Scan G → Type 0
  Goes = Becomes atoi extension_loaded process_rule

  taken :
      (c : ℕ) (cs rest : Bytes) (s s' : Scan G)
      → step atoi extension_loaded process_rule c (cs ++ rest) s ≡ (go s', length cs)
      → Goes (c ∷ (cs ++ rest)) s rest s'
  taken c cs rest s s' e =
      rw (drop-length-append cs rest) at
        (step-Becomes atoi extension_loaded process_rule c (cs ++ rest) s s' (length cs) e)

  -- The blanks behind a word are one token.
  gap-Becomes :
      (s : Scan G) (m : Mode) (stack : Stacks) (gap rest : Bytes)
      → (m ≡ Mode.cond) ⊎ (m ≡ Mode.cond_op)
      → All (λ x. is_blank x ≡ true) gap
      → span is_blank rest ≡ 0
      → Goes (gap ++ rest) (inside s m stack) rest (inside s m stack)
  unfolding step on_cond on_cond_op lex_cond lex_cond_op
  gap-Becomes s m stack [] rest h g e = (omega arith, λ fuel _. refl)
  gap-Becomes s Mode.cond stack (x ∷ gap) rest h (b, g) e =
      taken x gap rest _ _ (rw (b, span-before is_blank gap rest g e) refl)
  gap-Becomes s Mode.cond_op stack (x ∷ gap) rest h (b, g) e =
      taken x gap rest _ _ (rw (b, span-before is_blank gap rest g e) refl)
  gap-Becomes s Mode.init stack (x ∷ gap) rest h g e = absurd (ground arith)
  gap-Becomes s Mode.rule stack (x ∷ gap) rest h g e = absurd (ground arith)

  -- The actions are those of the parts.
  operand-pushed :
      (s : Scan G) (stack stack' : Stacks) (v : ℤ)
      → on_item (Item.number v) stack ≡ some stack'
      → push_operand atoi extension_loaded process_rule (inside s Mode.cond stack) v
        ≡ go (inside s Mode.cond_op stack')
  unfolding on_item sy_push
  operand-pushed s stack stack' v h = ground arith

  number-action :
      (digits : Bytes) (s : Scan G) (stack stack' : Stacks)
      → on_item (Item.number (atoi digits)) stack ≡ some stack'
      → on_cond atoi extension_loaded process_rule
          (CondToken.number digits)
          (inside s Mode.cond stack)
        ≡ go (inside s Mode.cond_op stack')
  unfolding on_cond
  number-action digits s stack stack' h = operand-pushed s stack stack' (atoi digits) h

  int_of-if : (b : Bool) → int_of b ≡ (if b then pos 1 else pos 0)
  int_of-if true = refl
  int_of-if false = refl

  call-action :
      (arg : Bytes) (v : ℤ) (s : Scan G) (stack stack' : Stacks)
      → v ≡ (if extension_loaded arg then pos 1 else pos 0)
      → on_item (Item.number v) stack ≡ some stack'
      → on_cond atoi extension_loaded process_rule
          (CondToken.call (codes "extension_loaded") (some arg))
          (inside s Mode.cond stack)
        ≡ go (inside s Mode.cond_op stack')
  unfolding on_cond equals
  call-action arg v s stack stack' e h =
      ap (push_operand atoi extension_loaded process_rule (inside s Mode.cond stack))
        (int_of-if (extension_loaded arg) ∙ sym e)
      ∙ operand-pushed s stack stack' v h

  variable-action :
      (c t : Bytes) (s : Scan G) (stack stack' : Stacks)
      → find c s.vars ≡ some t
      → on_item (Item.number (atoi t)) stack ≡ some stack'
      → on_cond atoi extension_loaded process_rule (CondToken.variable c) (inside s Mode.cond stack)
        ≡ go (inside s Mode.cond_op stack')
  unfolding on_cond
  variable-action c t s stack stack' f h = rw f (operand-pushed s stack stack' (atoi t) h)

  sign-action :
      (s : Scan G) (stack stack' : Stacks) (o : Option (List SyOp))
      → and_then o (λ ops. some (stacks stack.res ops)) ≡ some stack'
      → pushed atoi extension_loaded process_rule Mode.cond
          (inside s Mode.cond stack)
          (with_ops atoi extension_loaded process_rule (inside s Mode.cond stack) o)
        ≡ go (inside s Mode.cond stack')
  sign-action s stack stack' none h = cc
  sign-action s stack stack' (some ops) h = ground arith

  operator-action :
      (s : Scan G) (m : Mode) (stack : Stacks) (o : Option Stacks) (stack' : Stacks)
      → o ≡ some stack'
      → pushed atoi extension_loaded process_rule m (inside s Mode.cond_op stack) o
        ≡ go (inside s m stack')
  operator-action s m stack o stack' h = rw h

  operator-Becomes :
      (op : SyOp) (s : Scan G) (stack stack' : Stacks) (rest : Bytes)
      → is_binary op ≡ true
      → followed b'=' rest ≡ false
      → sy_binary op stack ≡ some stack'
      → Goes (symbol op ++ rest) (inside s Mode.cond_op stack) rest (inside s Mode.cond stack')
  unfolding step on_cond_op lex_cond_op
  operator-Becomes SyOp.negation s stack stack' rest b n h = cc
  operator-Becomes SyOp.paren s stack stack' rest b n h = cc
  operator-Becomes SyOp.less s stack stack' rest b n h =
      taken b'<' [] rest _ _ (rw n (ap (λ k. (k, 0)) (operator-action s Mode.cond stack _ _ h)))
  operator-Becomes SyOp.greater s stack stack' rest b n h =
      taken b'>' [] rest _ _ (rw n (ap (λ k. (k, 0)) (operator-action s Mode.cond stack _ _ h)))
  operator-Becomes SyOp.less_equal s stack stack' rest b n h =
      taken b'<' (codes "=") rest _ _ (ap (λ k. (k, 1)) (operator-action s Mode.cond stack _ _ h))
  operator-Becomes SyOp.greater_equal s stack stack' rest b n h =
      taken b'>' (codes "=") rest _ _ (ap (λ k. (k, 1)) (operator-action s Mode.cond stack _ _ h))
  operator-Becomes SyOp.conjunction s stack stack' rest b n h =
      taken b'&' (codes "&") rest _ _ (ap (λ k. (k, 1)) (operator-action s Mode.cond stack _ _ h))
  operator-Becomes SyOp.disjunction s stack stack' rest b n h =
      taken b'|' (codes "|") rest _ _ (ap (λ k. (k, 1)) (operator-action s Mode.cond stack _ _ h))
  operator-Becomes SyOp.equal s stack stack' rest b n h =
      taken b'=' (codes "=") rest _ _ (ap (λ k. (k, 1)) (operator-action s Mode.cond stack _ _ h))

  word-Becomes :
      (w : Word) (i : Item) (s : Scan G) (stack stack' : Stacks) (rest : Bytes)
      → StandsFor atoi extension_loaded s.vars w i
      → Parts (behind i) rest
      → on_item i stack ≡ some stack'
      → Goes (spelled w rest) (inside s (before i) stack) rest (inside s (behind i) stack')
  unfolding step on_cond on_cond_op on_item
  word-Becomes w i s stack stack' rest (is_number {d} {ds} a b c) (behind_operand e _ _) h =
      taken d ds rest _ _ (
        rw (lex_cond-number d ds rest a b e)
          (ap (λ n. (n, length ds)) (number-action (d ∷ ds) s stack stack' (rw c h))))
  word-Becomes w i s stack stack' rest (is_variable {c} {cs} t a b e f) (behind_operand _ p q) h =
      taken c cs rest _ _ (
        rw (lex_cond-variable c cs rest a b p q)
          (ap (λ n. (n, length cs)) (variable-action (c ∷ cs) t s stack stack' e (rw f h))))
  word-Becomes w i s stack stack' rest (is_call {arg} {v} a e) p h = rw (drop-called arg rest) at (
      step-Becomes atoi extension_loaded process_rule b'e' (called (arg ++ b'"' ∷ b')' ∷ rest))
        (inside s Mode.cond stack) (inside s Mode.cond_op stack') (16 + suc (suc (length arg)) + 1)
        (rw (lex_cond-call arg rest a)
          (ap (λ n. (n, 16 + suc (suc (length arg)) + 1)) (call-action arg v s stack stack' e h))))
  word-Becomes w i s stack stack' rest is_bang p h =
      taken b'!' [] rest _ _
        (ap (λ n. (n, 0)) (sign-action s stack stack' (sy_push SyOp.negation stack.ops) h))
  word-Becomes w i s stack stack' rest is_open p h =
      taken b'(' [] rest _ _
        (ap (λ n. (n, 0)) (sign-action s stack stack' (sy_push SyOp.paren stack.ops) h))
  word-Becomes w i s stack stack' rest is_close p h =
      taken b')' [] rest _ _ (ap (λ n. (n, 0)) (operator-action s Mode.cond_op stack _ _ h))
  word-Becomes w i s stack stack' rest (is_operator {op} b) (behind_sign n) h =
      operator-Becomes op s stack stack' rest b n h

  -- The words of an expression, one behind the other.
  text-Becomes :
      (s : Scan G) {ws : List (Word × Bytes)} {is : List Item} (m m' : Mode) (stack stack' : Stacks)
      (rest : Bytes)
      → StandFor atoi extension_loaded s.vars ws is
      → Follows m is m'
      → on_items is stack ≡ some stack'
      → span is_blank rest ≡ 0
      → Parts m' rest
      → Goes (text ws rest) (inside s m stack) rest (inside s m' stack')
  unfolding on_items
  text-Becomes s m m' stack stack' rest none_left f h e p = (omega arith, λ fuel _. cc)
  text-Becomes s m m' stack stack' rest (then_word {w} {gap} {i} {ws} {is} x g xs) (f, fs) h e p =
      let (mid, a, b) = and_then-some (on_item i stack) (on_items is) h in
      let tail = text ws rest in
      let parts = text-Parts atoi extension_loaded s.vars (behind i) m' rest xs fs p in
      rw f (
        Becomes-trans atoi extension_loaded process_rule (spelled w (gap ++ tail)) (gap ++ tail)
          rest (inside s (before i) stack) (inside s (behind i) mid) (inside s m' stack')
          (word-Becomes w i s stack mid (gap ++ tail) x
            (gap-Parts atoi extension_loaded s.vars i gap tail g parts) a)
          (Becomes-trans atoi extension_loaded process_rule (gap ++ tail) tail rest
            (inside s (behind i) mid) (inside s (behind i) mid) (inside s m' stack')
            (gap-Becomes s (behind i) mid gap tail (behind-cond atoi extension_loaded s.vars i) g
              (text-not_blank atoi extension_loaded s.vars rest xs e))
            (text-Becomes s (behind i) m' mid stack' rest xs fs b e p)))

  -- Between conditions, and behind one whose value is `v`.
  abbrev pub between : Scan G → List ℤ → Scan G
  between s res = record s { mode = Mode.init; stack = stacks res []; condition_active = false }

  abbrev pub under : Scan G → ℤ → Scan G
  under s v = record s {
    mode = Mode.init;
    stack = stacks (v ∷ []) [];
    cond_res_0 = v;
    condition_active = true;
  }

  opens :
      (s : Scan G) (res : List ℤ) (rest : Bytes)
      → span is_blank rest ≡ 0
      → Goes
          (codes "@condition " ++ rest)
          (between s res)
          rest
          (inside (under s s.cond_res_0) Mode.cond (stacks [] []))
  unfolding step on_init
  opens s res rest e = taken b'@' (codes "condition ") rest _ _ (rw (e, span) refl)

  finish-action :
      (s : Scan G) (stack : Stacks) (v : ℤ)
      → sy_finish stack.ops stack.res ≡ some (v ∷ [])
      → on_cond_op atoi extension_loaded process_rule OpToken.semicolon
          (inside (under s s.cond_res_0) Mode.cond_op stack)
        ≡ go (under s v)
  unfolding on_cond_op
  finish-action s stack v h = rw h

  closes :
      (s : Scan G) (stack : Stacks) (v : ℤ) (rest : Bytes)
      → sy_finish stack.ops stack.res ≡ some (v ∷ [])
      → Goes (b';' ∷ rest) (inside (under s s.cond_res_0) Mode.cond_op stack) rest (under s v)
  unfolding step on_cond_op
  closes s stack v rest h = taken b';' [] rest _ _ (ap (λ n. (n, 0)) (finish-action s stack v h))

  -- What is written as an expression of at most MAX_CONDITIONS parts is read as that expression: the
  -- scan goes on behind the condition with the value of the expression. The operands are numbers and
  -- variables that are set and calls of `extension_loaded` on a string without quotes and backslashes,
  -- and any blanks or none stand behind each word. (Line breaks are not covered.)
  pub condition-value :
      (e : Expr) (ws : List (Word × Bytes)) (s : Scan G) (res : List ℤ) (rest : Bytes)
      → IsGrammatical e
      → size e ≤ max_conditions
      → StandFor atoi extension_loaded s.vars ws (items e)
      → Goes (codes "@condition " ++ text ws (b';' ∷ rest)) (between s res) rest (under s (value e))
  unfolding span is_blank is_digit is_word is_alpha starts_with
  condition-value e ws s res rest g n x =
      let (out, runs, ends) = sy_finish-items e g n in
      Becomes-trans atoi extension_loaded process_rule _ _ _ _ _ _
        (opens s res (text ws (b';' ∷ rest))
          (text-not_blank atoi extension_loaded s.vars (b';' ∷ rest) x refl))
        (Becomes-trans atoi extension_loaded process_rule _ _ _ _ _ _
          (text-Becomes (under s s.cond_res_0) Mode.cond Mode.cond_op (stacks [] []) out
            (b';' ∷ rest) x (Follows-items e) runs refl (behind_operand refl refl refl))
          (closes s out (value e) rest ends))
