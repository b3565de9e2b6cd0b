-- ===== src/VarParser/Ends.antt =====
-- The parsing of a variable comes to an end.
use snuffleupagus.Base.{
  ℕ, zero, suc, ◌+◌, ◌-◌, ◌≤◌, ◌<◌, ◌≡◌, ◌≢◌, refl, arith, Bool, not, ◌&&◌, List, [], ◌∷◌, Option,
  none, some, length, take, drop, ltb, ltb→lt, ◌==◌, Bytes, Bool-cases, inl, inr,
}
use snuffleupagus.SpTree.{ElemType, SpTree, null, node}
use snuffleupagus.VarParser.{
  Parse, Loop, create_var, is_var_name_valid, var_type, with_idx, parse_idx, idx_of, make, created,
  at_depth, opened, outside, at_quote, unless_quoted, at_token, finish, parse_tokens, start,
  not_empty, parse_with, sp_parse_var, sub64,
}
use snuffleupagus.VarParser.Tokens.{
  SpConfToken, is_token_valid, is_quote, is_undefined, is_interpreted, all_tokens,
}

length-take {ℓ} : {A : Type ℓ} (n : ℕ) (xs : List A) → length (take n xs) ≤ length xs
length-take zero xs = omega arith
length-take (suc n) [] = omega arith
length-take (suc n) (x ∷ xs) = omega (arith, length-take n xs)

length-drop {ℓ} : {A : Type ℓ} (n : ℕ) (xs : List A) → length (drop n xs) ≡ length xs - n
length-drop zero xs = omega arith
length-drop (suc n) [] = omega arith
length-drop (suc n) (x ∷ xs) = omega (arith, length-drop n xs)

abbrev Ends : Parse → Type 0
Ends p = p ≢ Parse.out_of_fuel

module _ (matches : Bytes → Bytes → Bool) (parse : Bytes → Parse) where
  with_idx-Ends :
      (tree : SpTree) (type : ElemType) (value : Bytes) (p : Parse)
      → Ends p
      → Ends (with_idx matches tree type value p)
  unfolding with_idx
  with_idx-Ends tree type value (Parse.parsed t) h = λ e. cc
  with_idx-Ends tree type value Parse.refused h = λ e. cc
  with_idx-Ends tree type value Parse.out_of_fuel h = absurd (h refl)

  create_var-Ends :
      (tree : SpTree) (value : Bytes) (n : ℕ) (type : ElemType) (idx : Option Bytes)
      → Ends (parse_idx matches parse idx)
      → Ends (create_var matches parse tree value n type idx)
  unfolding create_var
  create_var-Ends tree value n type idx h =
      elim (Bool-cases (
        not (is_interpreted (var_type matches value type))
        && not (is_var_name_valid matches (take n value)))) [
          | inl e ↦ rw e (λ q. cc)
          | inr e ↦ rw e (with_idx-Ends tree (var_type matches value type) (take n value) _ h)
        ]

  module _ (str : Bytes) (filled : 0 < length str)
      (short : (idx : Bytes) → length idx < length str → Ends (parse idx)) where
    idx_of-Ends :
        (from : Option ℕ) (token : SpConfToken)
        → Ends (parse_idx matches parse (idx_of matches parse str from token))
    idx_of-Ends none token = λ e. cc
    idx_of-Ends (some from) token = elim (Bool-cases (ltb 0 from)) [
      | inl e ↦ rw e (
          short _ (
            omega (
              arith,
              length-take {0} (sub64 token.pos from) (drop from str),
              length-drop {0} from str,
              ltb→lt 0 from e,
            )))
      | inr e ↦ rw e (λ q. cc)
    ]

    module _ (rest : Loop → Parse) (ends : (l : Loop) → Ends (rest l)) where
      created-Ends :
          (token : SpConfToken) (l : Loop) (p : Parse)
          → Ends p
          → Ends (created matches parse str rest token l p)
      created-Ends token l (Parse.parsed tree) h = ends _
      created-Ends token l Parse.refused h = λ e. cc
      created-Ends token l Parse.out_of_fuel h = absurd (h refl)

      make-Ends :
          (token : SpConfToken) (type : ElemType) (l : Loop)
          → Ends (make matches parse str rest token type l)
      unfolding make
      make-Ends token type l =
          created-Ends token l _
            (create_var-Ends l.tree (drop l.pos str) _ type _ (idx_of-Ends l.pos_idx_start token))

      at_depth-Ends :
          (token : SpConfToken) (type : ElemType) (l : Loop)
          → Ends (at_depth matches parse str rest token type l)
      unfolding at_depth
      at_depth-Ends token type l = elim (Bool-cases (l.array_count == 0)) [
        | inl e ↦ rw e (make-Ends token type l)
        | inr e ↦ rw e (ends l)
      ]

      outside-Ends :
          (token : SpConfToken) (type : ElemType) (l : Loop)
          → Ends (outside matches parse str rest token type l)
      unfolding outside
      outside-Ends token ElemType.array l =
          at_depth-Ends token ElemType.array (opened matches parse str token l)
      outside-Ends token ElemType.array_end l =
          at_depth-Ends token ElemType.array (record l { array_count = l.array_count - 1 })
      outside-Ends token type l = at_depth-Ends token type l

      unless_quoted-Ends :
          (token : SpConfToken) (type : ElemType) (l : Loop)
          → Ends (unless_quoted matches parse str rest token type l)
      unfolding unless_quoted
      unless_quoted-Ends token type l = elim (Bool-cases (is_undefined l.quote)) [
        | inl e ↦ rw e (outside-Ends token type l)
        | inr e ↦ rw e (ends l)
      ]

      at_token-Ends :
          (token : SpConfToken) (next : Option SpConfToken) (l : Loop)
          → Ends (at_token matches parse str rest token next l)
      unfolding at_token
      at_token-Ends token next l =
          elim (Bool-cases
            (not (is_token_valid token.type token next l.quote l.array_count str l.pos))) [
              | inl e ↦ rw e (λ q. cc)
              | inr e ↦ rw e (elim (Bool-cases (is_quote token.type)) [
                | inl q ↦ rw q (
                    unless_quoted-Ends token ElemType.interpreted_string
                      (at_quote matches parse str token l))
                | inr q ↦ rw q (unless_quoted-Ends token token.type l)
              ])
            ]

    finish-Ends : (l : Loop) → Ends (finish matches parse str l)
    unfolding finish
    finish-Ends l = elim (Bool-cases (l.array_count == 0)) [
      | inr e ↦ rw e (λ q. cc)
      | inl e ↦ rw e (elim (Bool-cases (is_undefined l.quote)) [
        | inr f ↦ rw f (λ q. cc)
        | inl f ↦ rw f (elim (Bool-cases (l.pos == length str)) [
          | inl g ↦ rw g (λ q. cc)
          | inr g ↦
              rw g (create_var-Ends l.tree (drop l.pos str) _ ElemType.constant none (λ q. cc))
        ])
      ])
    ]

    parse_tokens-Ends :
        (tokens : List SpConfToken) (l : Loop) → Ends (parse_tokens matches parse str tokens l)
    unfolding parse_tokens
    parse_tokens-Ends [] l = finish-Ends l
    parse_tokens-Ends (token ∷ tokens) l =
        at_token-Ends (parse_tokens matches parse str tokens) (parse_tokens-Ends tokens) token _ l

module _ (matches : Bytes → Bytes → Bool) where
  not_empty-Ends : (p : Parse) → Ends p → Ends (not_empty matches p)
  not_empty-Ends (Parse.parsed null) h = λ e. cc
  not_empty-Ends (Parse.parsed (node _ _ _ _)) h = h
  not_empty-Ends Parse.refused h = h
  not_empty-Ends Parse.out_of_fuel h = h

  parse_with-Ends :
      (fuel : ℕ) (line : Bytes) → length line < fuel → Ends (parse_with matches fuel line)
  unfolding parse_with
  parse_with-Ends zero line h = absurd (omega arith)
  parse_with-Ends (suc fuel) [] h = λ e. cc
  parse_with-Ends (suc fuel) (c ∷ line) h = not_empty-Ends _ (
      parse_tokens-Ends matches (parse_with matches fuel) (c ∷ line) (omega arith)
        (λ idx g. parse_with-Ends fuel idx (omega arith)) (all_tokens (c ∷ line)) (start matches))

  -- A variable of any text is parsed: the parser comes to an end, however its brackets nest.
  pub sp_parse_var-ends : (line : Bytes) → sp_parse_var matches line ≢ Parse.out_of_fuel
  unfolding sp_parse_var
  sp_parse_var-ends line = parse_with-Ends (length line + 1) line (omega arith)
