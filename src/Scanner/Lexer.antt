-- ===== src/Scanner/Lexer.antt =====
-- The regular expressions of src/sp_config_scanner.re, one lexer for each start condition. A lexer
-- gets the byte under the cursor and the memory behind it; with the token it gives the number of
-- bytes that the token takes of that memory. Positions count from the second byte. re2c takes the
-- longest match; no expression but those for a single byte takes a NUL.
pub mod Words
use snuffleupagus.Base.{
  ℕ, zero, suc, ◌+◌, ◌-◌, Bool, true, false, not, ◌&&◌, ◌||◌, List, [], ◌∷◌, ◌++◌, map, Option,
  none, some, ltb, leb, ◌==◌, if◌then◌else◌, length, take, drop, Bytes, codes, starts_with,
}
use Prim.Native.String.{String}
use snuffleupagus.Scanner.Condition.{SyOp}

infixl 5 ◌>>=◌
abbrev ◌>>=◌ {ℓ κ} : {A : Type ℓ} {B : Type κ} → Option A → (A → Option B) → Option B
none >>= f = none
some a >>= f = f a

abbrev or_else {ℓ} : {A : Type ℓ} → Option A → Option A → Option A
or_else none b = b
or_else (some a) b = some a

abbrev or {ℓ} : {A : Type ℓ} → Option A → A → A
or none b = b
or (some a) b = a

-- Tags `t1` and `t2`: the bytes between two positions.
abbrev slice : Bytes → ℕ → ℕ → Bytes
slice s from to = take (to - from) (drop from s)

unfoldable pub is_blank : ℕ → Bool
is_blank c = c == b' ' || c == b'\t'

unfoldable pub is_digit : ℕ → Bool
is_digit c = leb b'0' c && leb c b'9'

unfoldable pub is_alpha : ℕ → Bool
is_alpha c = (leb b'a' c && leb c b'z') || (leb b'A' c && leb c b'Z')

unfoldable pub is_word : ℕ → Bool
unfolding is_alpha is_digit
is_word c = is_alpha c || is_digit c || c == b'_'

-- `[^\r\n\x00]`.
in_line : ℕ → Bool
in_line c = not (c == 13 || c == 10 || c == 0)

-- The length of the longest prefix of such bytes.
unfoldable pub span : (ℕ → Bool) → Bytes → ℕ
span p [] = 0
span p (c ∷ s) = if p c then suc (span p s) else 0

-- The position behind a literal text, a keyword (`keyword` of the source), and one or more blanks.
literal : String → Bytes → ℕ → Option ℕ
unfolding starts_with
literal t s at = if starts_with (codes t) (drop at s) then some (at + length (codes t)) else none

word_end : Bytes → ℕ → Option ℕ
unfolding is_alpha span is_word
word_end [] at = none
word_end (c ∷ rest) at = if is_alpha c then some (at + suc (span is_word rest)) else none

word : Bytes → ℕ → Option ℕ
unfolding word_end
word s at = word_end (drop at s) at

blanks : Bytes → ℕ → Option ℕ
unfolding span is_blank
blanks s at = let n = span is_blank (drop at s) in if ltb 0 n then some (at + n) else none

-- The lengths that a string may have behind its opening quote, the longest first: a quote behind a
-- backslash may end it and may not.
string_ends : Bytes → List ℕ
unfolding in_line
string_ends [] = []
string_ends (c ∷ []) = if c == b'"' then 1 ∷ [] else []
string_ends (c ∷ d ∷ s) =
    let plain = map suc (string_ends (d ∷ s)) in
    let escaped = map (λ n. suc (suc n)) (string_ends s) in
    if c == b'"'
    then 1 ∷ []
    else if c == b'\\' && d == b'"'
    then escaped ++ 2 ∷ []
    else if in_line c
    then plain
    else []

ends_at : Bytes → ℕ → List ℕ
unfolding string_ends
ends_at [] at = []
ends_at (c ∷ s) at = if c == b'"' then map (λ n. at + suc n) (string_ends s) else []

-- The positions behind a string at a position.
string : Bytes → ℕ → List ℕ
unfolding ends_at
string s at = ends_at (drop at s) at

-- The first of some positions from which the rest of an expression matches.
first_of {ℓ} : {A : Type ℓ} → (ℕ → Option A) → List ℕ → Option A
first_of match [] = none
first_of match (at ∷ others) = or_else (match at) (first_of match others)

pub data InitToken : Type 0 where
  space sp end condition end_condition message err nonascii other : InitToken
  set : Bytes → Bytes → InitToken

-- `whitespace* ";"`.
closing : Bytes → ℕ → Option ℕ
unfolding literal span is_blank
closing s at = literal ";" s (at + span is_blank (drop at s))

-- `"set" whitespace+ @t1 keyword @t2 whitespace+ @t3 string @t4 whitespace* ";"` behind its word.
set_from : Bytes → ℕ → Option (InitToken × ℕ)
unfolding blanks word first_of string closing
set_from s at = blanks s at >>= λ t1. word s t1 >>= λ t2. blanks s t2 >>= λ t3.
    first_of
      (λ t4.
        closing s t4 >>= λ to. some (InitToken.set (slice s t1 t2) (slice s (t3 + 1) (t4 - 1)), to))
      (string s t3)

-- `whitespace+ @t1 string @t2 ";"`.
message_from : InitToken → Bytes → ℕ → Option (InitToken × ℕ)
unfolding blanks first_of string literal
message_from token s at =
    blanks s at >>= λ t1. first_of (λ t2. literal ";" s t2 >>= λ to. some (token, to)) (string s t1)

-- What begins with an `@`.
at_command : Bytes → Option (InitToken × ℕ)
unfolding literal set_from blanks closing message_from
at_command s = or_else (literal "set" s 0 >>= set_from s) (
    or_else (literal "condition" s 0 >>= λ at. blanks s at >>= λ to. some (InitToken.condition, to))
      (or_else
        (literal "end_condition" s 0 >>= λ at.
          closing s at >>= λ to. some (InitToken.end_condition, to))
        (or_else
          (or_else (literal "log" s 0) (literal "info" s 0) >>= message_from InitToken.message s)
          (or_else
            (or_else (literal "warning" s 0 >>= message_from InitToken.message s)
              (literal "warn" s 0 >>= message_from InitToken.message s))
            (or_else (literal "error" s 0 >>= message_from InitToken.err s)
              (literal "err" s 0 >>= message_from InitToken.err s))))))

-- `newline` has a CR that may be missing.
newline : Bytes → Bool
newline [] = false
newline (c ∷ _) = c == 10

unfoldable pub lex_init : ℕ → Bytes → InitToken × ℕ
unfolding is_blank span in_line newline literal set_from at_command
lex_init c s =
    if c == 0
    then (InitToken.end, 0)
    else if leb 0x80 c
    then (InitToken.nonascii, 0)
    else if is_blank c
    then (InitToken.space, span is_blank s)
    else if c == b';' || c == b'#'
    then (InitToken.space, span in_line s)
    else if c == 10
    then (InitToken.space, 0)
    else if c == 13 && newline s
    then (InitToken.space, 1)
    else if c == b's'
    then or
        (or_else (literal "p" s 0 >>= λ to. some (InitToken.sp, to))
          (literal "et" s 0 >>= set_from s))
        (InitToken.other, 0)
    else if c == b'@'
    then or (at_command s) (InitToken.other, 0)
    else (InitToken.other, 0)

pub data CondToken : Type 0 where
  space negation open_paren other : CondToken
  call : Bytes → Option Bytes → CondToken
  variable number : Bytes → CondToken

-- `@t1 keyword @t2 "(" @t3 string? @t4 ")"` behind the keyword; `t3` and `t4` may be the same.
call_from : Bytes → Bytes → ℕ → Option (CondToken × ℕ)
unfolding literal first_of string
call_from name s at = literal "(" s at >>= λ t3.
    or_else
      (first_of
        (λ t4. literal ")" s t4 >>= λ to.
          some (CondToken.call name (some (slice s (t3 + 1) (t4 - 1))), to))
        (string s t3))
      (literal ")" s t3 >>= λ to. some (CondToken.call name none, to))

name_from : ℕ → Bytes → ℕ → CondToken × ℕ
unfolding call_from
name_from c s n = or (call_from (c ∷ take n s) s n) (CondToken.variable (c ∷ take n s), n)

unfoldable pub lex_cond : ℕ → Bytes → CondToken × ℕ
unfolding is_blank is_digit is_alpha is_word span newline name_from
lex_cond c s =
    if is_blank c
    then (CondToken.space, span is_blank s)
    else if c == 10
    then (CondToken.space, 0)
    else if c == 13 && newline s
    then (CondToken.space, 1)
    else if is_alpha c
    then name_from c s (span is_word s)
    else if is_digit c
    then (CondToken.number (c ∷ take (span is_digit s) s), span is_digit s)
    else if c == b'!'
    then (CondToken.negation, 0)
    else if c == b'('
    then (CondToken.open_paren, 0)
    else (CondToken.other, 0)

pub data OpToken : Type 0 where
  space close_paren semicolon other : OpToken
  binary : SyOp → OpToken

unfoldable pub followed : ℕ → Bytes → Bool
followed d [] = false
followed d (c ∷ _) = c == d

unfoldable pub lex_cond_op : ℕ → Bytes → OpToken × ℕ
unfolding is_blank span newline followed
lex_cond_op c s =
    if is_blank c
    then (OpToken.space, span is_blank s)
    else if c == 10
    then (OpToken.space, 0)
    else if c == 13 && newline s
    then (OpToken.space, 1)
    else if c == b'&' && followed b'&' s
    then (OpToken.binary SyOp.conjunction, 1)
    else if c == b'|' && followed b'|' s
    then (OpToken.binary SyOp.disjunction, 1)
    else if c == b'=' && followed b'=' s
    then (OpToken.binary SyOp.equal, 1)
    else if c == b'<'
    then if followed b'=' s
      then (OpToken.binary SyOp.less_equal, 1)
      else (OpToken.binary SyOp.less, 0)
    else if c == b'>'
    then if followed b'=' s
      then (OpToken.binary SyOp.greater_equal, 1)
      else (OpToken.binary SyOp.greater, 0)
    else if c == b')'
    then (OpToken.close_paren, 0)
    else if c == b';'
    then (OpToken.semicolon, 0)
    else (OpToken.other, 0)

-- The argument of a keyword, from `t3` to `t4`, if there are parentheses.
pub data RuleToken : Type 0 where
  space semicolon nonascii other : RuleToken
  keyword : Bytes → Option Bytes → RuleToken

-- `( newline | whitespace )* "."`, the context of a line break.
goes_on : Bytes → Bool
unfolding is_blank newline
goes_on [] = false
goes_on (c ∷ s) =
    let rest = goes_on s in
    if is_blank c || c == 10 || (c == 13 && newline s) then rest else c == b'.'

-- `"(" @t3 ( string? | keyword ) @t4 ")"`.
argument_from : Bytes → ℕ → Option (Bytes × ℕ)
unfolding literal first_of string word
argument_from s at = literal "(" s at >>= λ t3.
    or_else (first_of (λ t4. literal ")" s t4 >>= λ to. some (slice s t3 t4, to)) (string s t3)) (
      or_else (word s t3 >>= λ t4. literal ")" s t4 >>= λ to. some (slice s t3 t4, to))
        (literal ")" s t3 >>= λ to. some ([], to)))

with_argument : Bytes → ℕ → Option (Bytes × ℕ) → RuleToken × ℕ
with_argument kw at none = (RuleToken.keyword kw none, at)
with_argument kw at (some (arg, to)) = (RuleToken.keyword kw (some arg), to)

keyword_from : Bytes → Option ℕ → RuleToken × ℕ
unfolding with_argument argument_from
keyword_from s none = (RuleToken.other, 0)
keyword_from s (some t2) = with_argument (take t2 s) t2 (argument_from s t2)

unfoldable pub lex_rule : ℕ → Bytes → RuleToken × ℕ
unfolding is_blank span newline goes_on word keyword_from
lex_rule c s =
    if is_blank c
    then (RuleToken.space, span is_blank s)
    else if c == 10 && goes_on s
    then (RuleToken.space, 0)
    else if c == 13 && newline s && goes_on (drop 1 s)
    then (RuleToken.space, 1)
    else if c == b'.'
    then keyword_from s (word s 0)
    else if c == b';'
    then (RuleToken.semicolon, 0)
    else if leb 0x80 c
    then (RuleToken.nonascii, 0)
    else (RuleToken.other, 0)
