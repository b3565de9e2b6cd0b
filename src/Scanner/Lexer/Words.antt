-- ===== src/Scanner/Lexer/Words.antt =====
-- The words of a condition of src/sp_config_scanner.re and their tokens.
use snuffleupagus.Base.{
  some, refl, ◌+◌, ◌==◌, ◌&&◌, ◌||◌, not, List, ◌-◌, ◌∙◌, drop, take, ℕ, suc, ◌≡◌, arith, Bool,
  true, false, [], ◌∷◌, ◌++◌, length, All, Bytes, codes, starts_with, take-length-append,
  drop-length-append, ap,
}
use snuffleupagus.Scanner.Condition.{SyOp}
use snuffleupagus.Scanner.Lexer.{
  literal, string_ends, CondToken, is_digit, is_alpha, is_word, span, lex_cond,
}

pub span-append :
    (p : ℕ → Bool) (xs : Bytes) (c : ℕ) (rest : Bytes)
    → All (λ x. p x ≡ true) xs
    → p c ≡ false
    → span p (xs ++ c ∷ rest) ≡ length xs
unfolding span
span-append p [] c rest h e = rw e
span-append p (x ∷ xs) c rest (h, hs) e = rw h (ap suc (span-append p xs c rest hs e))

-- The same in front of a text that does not begin so.
pub span-before :
    (p : ℕ → Bool) (xs rest : Bytes)
    → All (λ x. p x ≡ true) xs
    → span p rest ≡ 0
    → span p (xs ++ rest) ≡ length xs
unfolding span
span-before p [] rest h e = e
span-before p (x ∷ xs) rest (h, hs) e = rw h (ap suc (span-before p xs rest hs e))

-- A number.
pub lex_cond-number :
    (d : ℕ) (ds rest : Bytes)
    → is_digit d ≡ true
    → All (λ x. is_digit x ≡ true) ds
    → span is_digit rest ≡ 0
    → lex_cond d (ds ++ rest) ≡ (CondToken.number (d ∷ ds), length ds)
unfolding lex_cond
lex_cond-number d ds rest h hs e =
    rw (span-before is_digit ds rest hs e, take-length-append ds rest) (ground arith)

pub lex_cond-variable :
    (c : ℕ) (cs rest : Bytes)
    → is_alpha c ≡ true
    → All (λ x. is_word x ≡ true) cs
    → span is_word rest ≡ 0
    → starts_with (codes "(") rest ≡ false
    → lex_cond c (cs ++ rest) ≡ (CondToken.variable (c ∷ cs), length cs)
unfolding lex_cond
lex_cond-variable c cs rest h hs e n =
    rw (span-before is_word cs rest hs e, take-length-append cs rest, drop-length-append cs rest, n)
      (ground arith)

abbrev pub symbol : SyOp → Bytes
symbol SyOp.negation = codes "!"
symbol SyOp.less = codes "<"
symbol SyOp.greater = codes ">"
symbol SyOp.less_equal = codes "<="
symbol SyOp.greater_equal = codes ">="
symbol SyOp.conjunction = codes "&&"
symbol SyOp.disjunction = codes "||"
symbol SyOp.equal = codes "=="
symbol SyOp.paren = codes "("

-- A byte that stands for itself in a string.
abbrev pub is_plain : ℕ → Bool
is_plain c = not (c == 13 || c == 10 || c == 0) && not (c == b'"') && not (c == b'\\')

string_ends-plain :
    (arg rest : Bytes)
    → All (λ x. is_plain x ≡ true) arg
    → string_ends (arg ++ b'"' ∷ rest) ≡ suc (length arg) ∷ []
unfolding string_ends
string_ends-plain [] [] h = λ i. 1 ∷ []
string_ends-plain [] (r ∷ rest) h = λ i. 1 ∷ []
string_ends-plain (c ∷ []) rest (h, hs) = let e = string_ends-plain [] rest tt in ground arith
string_ends-plain (c ∷ d ∷ arg) rest (h, hs) =
    let e = string_ends-plain (d ∷ arg) rest hs in ground arith

drop-behind {ℓ} :
    {A : Type ℓ} (xs : List A) (x : A) (rest : List A)
    → drop (suc (length xs)) (xs ++ x ∷ rest) ≡ rest
drop-behind [] x rest = λ i. rest
drop-behind (y ∷ xs) x rest = drop-behind xs x rest

-- The call in front of its argument, and the number of its bytes behind the first.
abbrev pub called : Bytes → Bytes
called s = codes "xtension_loaded(\"" ++ s

abbrev to_end : ℕ → ℕ
to_end k = suc (
    suc (
      suc (
        suc (suc (suc (suc (suc (suc (suc (suc (suc (suc (suc (suc (suc (suc (suc k)))))))))))))))))

at_end : (k : ℕ) → 16 + suc (suc k) ≡ to_end k
at_end k = omega arith

drop-call :
    (arg rest : Bytes) → drop (16 + suc (suc (length arg))) (called (arg ++ b'"' ∷ rest)) ≡ rest
drop-call arg rest =
    ap (λ n. drop n (called (arg ++ b'"' ∷ rest))) (at_end (length arg)) ∙ drop-behind arg b'"' rest

take-call : (arg rest : Bytes) → take (16 + suc (suc (length arg)) - 1 - 17) (arg ++ rest) ≡ arg
take-call arg rest =
    ap (λ n. take n (arg ++ rest)) (less (length arg)) ∙ take-length-append arg rest
  where
    less : (k : ℕ) → 16 + suc (suc k) - 1 - 17 ≡ k
    less k = omega arith

drop-behind_two {ℓ} :
    {A : Type ℓ} (xs : List A) (x y : A) (rest : List A)
    → drop (suc (suc (length xs))) (xs ++ x ∷ y ∷ rest) ≡ rest
drop-behind_two [] x y rest = λ i. rest
drop-behind_two (z ∷ xs) x y rest = drop-behind_two xs x y rest

behind_end : (k : ℕ) → 16 + suc (suc k) + 1 ≡ to_end (suc k)
behind_end k = omega arith

pub drop-called :
    (arg rest : Bytes)
    → drop (16 + suc (suc (length arg)) + 1) (called (arg ++ b'"' ∷ b')' ∷ rest)) ≡ rest
drop-called arg rest =
    ap (λ n. drop n (called (arg ++ b'"' ∷ b')' ∷ rest))) (behind_end (length arg))
    ∙ drop-behind_two arg b'"' b')' rest

pub lex_cond-call :
    (arg rest : Bytes)
    → All (λ x. is_plain x ≡ true) arg
    → lex_cond b'e' (called (arg ++ b'"' ∷ b')' ∷ rest))
      ≡ (CondToken.call (codes "extension_loaded") (some arg), 16 + suc (suc (length arg)) + 1)
unfolding lex_cond starts_with literal
lex_cond-call arg rest h =
    rw
      (
        string_ends-plain arg (b')' ∷ rest) h,
        drop-call arg (b')' ∷ rest),
        take-call arg (b'"' ∷ b')' ∷ rest),
      )
      refl
