-- ===== src/Scanner/Conditions/Words.antt =====
-- The conditions of src/sp_config_scanner.re as words, and the parts of an expression these stand for.
use snuffleupagus.Base.{
  Bool, pos, if◌then◌else◌, ℕ, ◌≡◌, refl, ◌⊎◌, inl, inr, arith, true, false, starts_with, List, [],
  ◌∷◌, ◌++◌, some, ℤ, All, Bytes, codes,
}
use mathlib.Core.List.{append_assoc, append-nil}
use snuffleupagus.Ini.{find}
use snuffleupagus.Scanner.{Mode}
use snuffleupagus.Scanner.Condition.{SyOp}
use snuffleupagus.Scanner.Lexer.{is_blank, is_digit, is_alpha, is_word, span, followed}
use snuffleupagus.Scanner.Lexer.Words.{symbol, called, is_plain}
use snuffleupagus.Scanner.Precedence.{Expr, operand, negate, group, binary, Item, items, is_binary}

-- A word of a condition: digits, the name of a variable, a call of `extension_loaded` on a string, or
-- a sign.
pub data Word : Type 0 where
  numeral name : ℕ → Bytes → Word
  call : Bytes → Word
  bang open_paren close_paren : Word
  operator : SyOp → Word

-- The text of a word, in front of another.
abbrev pub spelled : Word → Bytes → Bytes
spelled (numeral d ds) rest = d ∷ (ds ++ rest)
spelled (name c cs) rest = c ∷ (cs ++ rest)
spelled (call arg) rest = b'e' ∷ called (arg ++ b'"' ∷ b')' ∷ rest)
spelled Word.bang rest = codes "!" ++ rest
spelled Word.open_paren rest = codes "(" ++ rest
spelled Word.close_paren rest = codes ")" ++ rest
spelled (Word.operator op) rest = symbol op ++ rest

-- Each word has blanks behind it, or none.
abbrev pub text : List (Word × Bytes) → Bytes → Bytes
text [] rest = rest
text ((w, gap) ∷ ws) rest = spelled w (gap ++ text ws rest)

-- The modes around each part of an expression.
abbrev pub before : Item → Mode
before (Item.operator op) = Mode.cond_op
before Item.close_paren = Mode.cond_op
before _ = Mode.cond

abbrev pub behind : Item → Mode
behind (Item.number v) = Mode.cond_op
behind Item.close_paren = Mode.cond_op
behind _ = Mode.cond

-- What stands in front of a text ends there as a word: an operand, and `<` or `>`.
pub data Parts : Mode → Bytes → Type 0 where
  behind_operand :
      {rest : Bytes}
      → span is_digit rest ≡ 0
      → span is_word rest ≡ 0
      → starts_with (codes "(") rest ≡ false
      → Parts Mode.cond_op rest
  behind_sign : {rest : Bytes} → followed b'=' rest ≡ false → Parts Mode.cond rest

module _ (atoi : Bytes → ℤ) (extension_loaded : Bytes → Bool) (vars : List (Bytes × Bytes)) where
  -- A word stands for a part of an expression.
  pub data StandsFor : Word → Item → Type 0 where
    is_number :
        {d : ℕ} {ds : Bytes} {v : ℤ}
        → is_digit d ≡ true
        → All (λ x. is_digit x ≡ true) ds
        → atoi (d ∷ ds) ≡ v
        → StandsFor (numeral d ds) (Item.number v)
    is_variable :
        {c : ℕ} {cs : Bytes} {v : ℤ} (t : Bytes)
        → is_alpha c ≡ true
        → All (λ x. is_word x ≡ true) cs
        → find (c ∷ cs) vars ≡ some t
        → atoi t ≡ v
        → StandsFor (name c cs) (Item.number v)
    is_call :
        {arg : Bytes} {v : ℤ}
        → All (λ x. is_plain x ≡ true) arg
        → v ≡ (if extension_loaded arg then pos 1 else pos 0)
        → StandsFor (call arg) (Item.number v)
    is_bang : StandsFor Word.bang Item.bang
    is_open : StandsFor Word.open_paren Item.open_paren
    is_close : StandsFor Word.close_paren Item.close_paren
    is_operator :
        {op : SyOp} → is_binary op ≡ true → StandsFor (Word.operator op) (Item.operator op)

  pub data StandFor : List (Word × Bytes) → List Item → Type 0 where
    none_left : StandFor [] []
    then_word :
        {w : Word} {gap : Bytes} {i : Item} {ws : List (Word × Bytes)} {is : List Item}
        → StandsFor w i
        → All (λ x. is_blank x ≡ true) gap
        → StandFor ws is
        → StandFor ((w, gap) ∷ ws) (i ∷ is)

  symbol-not_blank : (op : SyOp) (rest : Bytes) → span is_blank (symbol op ++ rest) ≡ 0
  unfolding span is_blank
  symbol-not_blank SyOp.less rest = refl
  symbol-not_blank _ rest = refl

  pub spelled-not_blank :
      (w : Word) (i : Item) (rest : Bytes) → StandsFor w i → span is_blank (spelled w rest) ≡ 0
  unfolding span is_blank is_digit is_alpha
  spelled-not_blank w i rest (is_number a b c) = ground arith
  spelled-not_blank w i rest (is_variable t a b c d) = ground arith
  spelled-not_blank w i rest (is_call a b) = refl
  spelled-not_blank w i rest is_bang = refl
  spelled-not_blank w i rest is_open = refl
  spelled-not_blank w i rest is_close = refl
  spelled-not_blank w i rest (is_operator {op} b) = symbol-not_blank op rest

  pub text-not_blank :
      {ws : List (Word × Bytes)} {is : List Item} (rest : Bytes)
      → StandFor ws is
      → span is_blank rest ≡ 0
      → span is_blank (text ws rest) ≡ 0
  text-not_blank rest none_left e = e
  text-not_blank rest (then_word {w} {gap} {i} {ws} {is} h g hs) e =
      spelled-not_blank w i (gap ++ text ws rest) h

  symbol-Parts :
      (op : SyOp) (rest : Bytes) → is_binary op ≡ true → Parts Mode.cond_op (symbol op ++ rest)
  unfolding span is_digit is_word is_alpha starts_with
  symbol-Parts SyOp.negation rest b = cc
  symbol-Parts SyOp.paren rest b = cc
  symbol-Parts _ rest b = behind_operand refl refl refl

  spelled-Parts :
      (w : Word) (i : Item) (rest : Bytes) → StandsFor w i → Parts (before i) (spelled w rest)
  unfolding followed is_digit is_alpha span is_word starts_with
  spelled-Parts w i rest (is_number a b c) = behind_sign (ground arith)
  spelled-Parts w i rest (is_variable t a b c d) = behind_sign (ground arith)
  spelled-Parts w i rest (is_call a b) = behind_sign refl
  spelled-Parts w i rest is_bang = behind_sign refl
  spelled-Parts w i rest is_open = behind_sign refl
  spelled-Parts w i rest is_close = behind_operand refl refl refl
  spelled-Parts w i rest (is_operator {op} b) = symbol-Parts op rest b

  blank-Parts :
      (m : Mode) (x : ℕ) (rest : Bytes)
      → is_blank x ≡ true
      → (m ≡ Mode.cond) ⊎ (m ≡ Mode.cond_op)
      → Parts m (x ∷ rest)
  unfolding is_blank followed is_digit is_alpha span is_word starts_with
  blank-Parts Mode.cond x rest b c = behind_sign (ground arith)
  blank-Parts Mode.cond_op x rest b c = behind_operand (ground arith) (ground arith) (ground arith)
  blank-Parts Mode.init x rest b c = absurd (ground arith)
  blank-Parts Mode.rule x rest b c = absurd (ground arith)

  pub behind-cond : (i : Item) → (behind i ≡ Mode.cond) ⊎ (behind i ≡ Mode.cond_op)
  behind-cond (Item.number v) = inr refl
  behind-cond Item.close_paren = inr refl
  behind-cond _ = inl refl

  pub gap-Parts :
      (i : Item) (gap rest : Bytes)
      → All (λ x. is_blank x ≡ true) gap
      → Parts (behind i) rest
      → Parts (behind i) (gap ++ rest)
  gap-Parts i [] rest g p = p
  gap-Parts i (x ∷ gap) rest (b, g) p = blank-Parts (behind i) x (gap ++ rest) b (behind-cond i)

-- The parts come in an order that the modes allow.
abbrev pub Follows : Mode → List Item → Mode → Type 0
Follows m [] m' = m ≡ m'
Follows m (i ∷ is) m' = (m ≡ before i) × Follows (behind i) is m'

pub text-Parts :
    (atoi : Bytes → ℤ) (extension_loaded : Bytes → Bool) (vars : List (Bytes × Bytes))
    {ws : List (Word × Bytes)} {is : List Item} (m m' : Mode) (rest : Bytes)
    → StandFor atoi extension_loaded vars ws is
    → Follows m is m'
    → Parts m' rest
    → Parts m (text ws rest)
text-Parts atoi extension_loaded vars m m' rest none_left f p = rw f p
text-Parts atoi extension_loaded vars m m' rest (then_word {w} {gap} {i} {ws} x g xs) (f, fs) p =
    rw f (spelled-Parts atoi extension_loaded vars w i (gap ++ text ws rest) x)

items-Follows :
    (e : Expr) (rest : List Item) (m : Mode)
    → Follows Mode.cond_op rest m
    → Follows Mode.cond (items e ++ rest) m
items-Follows (operand v) rest m h = (refl, h)
items-Follows (negate e) rest m h = (refl, items-Follows e rest m h)
items-Follows (group e) rest m h = (
  refl,
  rw (append_assoc (items e) (Item.close_paren ∷ []) rest)
      (items-Follows e (Item.close_paren ∷ rest) m (refl, h)),
)
items-Follows (binary op l r) rest m h =
    rw (append_assoc (items l) (Item.operator op ∷ items r) rest)
      (items-Follows l (Item.operator op ∷ (items r ++ rest)) m (refl, items-Follows r rest m h))

pub Follows-items : (e : Expr) → Follows Mode.cond (items e) Mode.cond_op
Follows-items e = rw append-nil at (items-Follows e [] Mode.cond_op refl)
