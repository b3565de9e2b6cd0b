-- ===== src/VarParser/Names.antt =====
-- The parsing of a name, and of a name with an index.
use mathlib.Core.List.{append-nil}
use snuffleupagus.Base.{
  ℕ, zero, suc, ◌+◌, ◌^◌, ◌≤◌, ◌<◌, ◌≡◌, refl, ap, ◌∙◌, arith, Bool, false, List, [], ◌∷◌, ◌++◌,
  none, length, take, ◌==◌, if◌then◌else◌, Bytes, All, codes, starts_with, Bool-cases, inl, inr,
}
use snuffleupagus.SpTree.{ElemType, null, node}
use snuffleupagus.VarParser.{
  Parse, is_var_name_valid, create_var, not_empty, parse_tokens, start, parse_with, sp_parse_var,
  sub64,
}
use snuffleupagus.VarParser.Tokens.{SpConfToken, tokens_from, all_tokens}

-- No byte of a delimiter.
abbrev pub IsPlain : ℕ → Type 0
IsPlain c =
    (c == b'-' ≡ false)
    × (c == b'[' ≡ false)
    × (c == b']' ≡ false)
    × (c == b'"' ≡ false)
    × (c == b'\'' ≡ false)
    × (c == b':' ≡ false)

plus_zero : (n : ℕ) → n ≡ n + 0
plus_zero n = omega arith

suc_of : (n : ℕ) → n + 1 ≡ suc n
suc_of n = omega arith

zero-ne : (n : ℕ) → 0 == suc n ≡ false
zero-ne n = ground arith

sub64-zero : (n : ℕ) → n < 2 ^ 64 → sub64 n 0 ≡ n
sub64-zero n h = omega arith

plus_one : (a n : ℕ) → a + 1 + n ≡ a + suc n
plus_one a n = omega arith

==-flip : (a b : ℕ) → a == b ≡ false → b == a ≡ false
==-flip a b h = ground arith

All-map :
    {A : Type 0} (P Q : A → Type 0) → ((x : A) → P x → Q x) → (xs : List A) → All P xs → All Q xs
All-map P Q f [] h = tt
All-map P Q f (x ∷ xs) (h, hs) = (f x h, All-map P Q f xs hs)

tokens_miss :
    (type : ElemType) (r : ℕ) (repr : Bytes) (at c : ℕ) (s : Bytes) (list : List SpConfToken)
    → r == c ≡ false
    → tokens_from type (r ∷ repr) at 0 (c ∷ s) list ≡ tokens_from type (r ∷ repr) (at + 1) 0 s list
unfolding tokens_from
tokens_miss type r repr at c s list h = rw (h, tokens_from, starts_with)

-- A delimiter does not stand in plain text, and is looked for behind it.
tokens_from-append :
    (type : ElemType) (r : ℕ) (repr : Bytes) (at : ℕ) (xs ys : Bytes) (list : List SpConfToken)
    → All (λ c. c == r ≡ false) xs
    → tokens_from type (r ∷ repr) at 0 (xs ++ ys) list
      ≡ tokens_from type (r ∷ repr) (at + length xs) 0 ys list
unfolding tokens_from starts_with
tokens_from-append type r repr at [] ys list h =
    ap (λ n. tokens_from type (r ∷ repr) n 0 ys list) (plus_zero at)
tokens_from-append type r repr at (c ∷ xs) ys list (h, hs) =
    tokens_miss type r repr at c (xs ++ ys) list (==-flip c r h)
    ∙ (tokens_from-append type r repr (at + 1) xs ys list hs
        ∙ ap (λ n. tokens_from type (r ∷ repr) n 0 ys list) (plus_one at (length xs)))

no_tokens :
    (type : ElemType) (r : ℕ) (repr xs : Bytes) (list : List SpConfToken)
    → All (λ c. c == r ≡ false) xs
    → tokens_from type (r ∷ repr) 0 0 xs list ≡ list
unfolding tokens_from
no_tokens type r repr xs list h = rw append-nil at (tokens_from-append type r repr 0 xs [] list h)

all_tokens-plain : (xs : Bytes) → All IsPlain xs → all_tokens xs ≡ []
unfolding all_tokens
all_tokens-plain xs h = rw (
  no_tokens ElemType.object b'-' (codes ">") xs [] (All-map IsPlain _ (λ c p. p.0) xs h),
  no_tokens ElemType.array b'[' [] xs [] (All-map IsPlain _ (λ c p. p.1) xs h),
  no_tokens ElemType.array_end b']' [] xs [] (All-map IsPlain _ (λ c p. p.2) xs h),
  no_tokens ElemType.interpreted_string b'"' [] xs [] (All-map IsPlain _ (λ c p. p.3) xs h),
  no_tokens ElemType.literal_string b'\'' [] xs [] (All-map IsPlain _ (λ c p. p.4) xs h),
  no_tokens ElemType.class b':' (codes ":") xs [] (All-map IsPlain _ (λ c p. p.5) xs h),
)

take_all : (n : ℕ) (xs : Bytes) → length xs ≤ n → take n xs ≡ xs
take_all zero [] h = refl
take_all zero (x ∷ xs) h = absurd (omega arith)
take_all (suc n) [] h = refl
take_all (suc n) (x ∷ xs) h = ap (◌∷◌ x) (take_all n xs (omega arith))

module _ (matches : Bytes → Bytes → Bool) where
  parse_step :
      (line : Bytes)
      → sp_parse_var matches line
        ≡ not_empty matches (
            parse_tokens matches
              (parse_with matches (length line))
              line
              (all_tokens line)
              (start matches))
  unfolding sp_parse_var parse_with
  parse_step line = rw (suc_of (length line))

  name_created :
      (parse : Bytes → Parse) (c : ℕ) (s : Bytes)
      → not_empty matches
          (create_var matches parse null (c ∷ s) (suc (length s)) ElemType.constant none)
        ≡ (if is_var_name_valid matches (c ∷ s)
            then Parse.parsed
                (node (if c == b'$' then ElemType.var else ElemType.constant) (c ∷ s) null null)
            else Parse.refused)
  unfolding create_var
  name_created parse c s = rw (take_all (length s) s (omega arith)) (elim (Bool-cases (c == b'$')) [
    | inl e ↦
        rw e (elim (Bool-cases (is_var_name_valid matches (c ∷ s))) [ inl v ↦ rw v | inr v ↦ rw v ])
    | inr e ↦
        rw e (elim (Bool-cases (is_var_name_valid matches (c ∷ s))) [ inl v ↦ rw v | inr v ↦ rw v ])
  ])

  -- A text with no delimiter in it is a name: it is refused if it is no valid one, and else it is
  -- the whole tree.
  pub sp_parse_var-name :
      (c : ℕ) (s : Bytes)
      → All IsPlain (c ∷ s)
      → length s + 1 < 2 ^ 64
      → sp_parse_var matches (c ∷ s) ≡ (
          if is_var_name_valid matches (c ∷ s)
          then Parse.parsed
              (node (if c == b'$' then ElemType.var else ElemType.constant) (c ∷ s) null null)
          else Parse.refused)
  unfolding parse_tokens
  sp_parse_var-name c s h short =
      rw (parse_step (c ∷ s), all_tokens-plain (c ∷ s) h)
        (rw (zero-ne (length s), sub64-zero (suc (length s)) (omega arith))
          (name_created (parse_with matches (suc (length s))) c s))
