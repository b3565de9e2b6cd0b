-- ===== src/VarParser.antt =====
-- src/sp_var_parser.c: the parsing of a variable as a rule names it. PCRE is a parameter; its two
-- expressions always compile. Messages are left out. A line has less than 2^31 bytes and no NUL.
pub mod Ends
pub mod Names
pub mod Tokens
use snuffleupagus.Base.{
  ℕ, zero, suc, ◌+◌, ◌-◌, ◌%◌, ◌^◌, Bool, not, ◌&&◌, ◌||◌, List, [], ◌∷◌, Option, none, some, ltb,
  ◌==◌, if◌then◌else◌, length, take, drop, Bytes, codes,
}
use snuffleupagus.SpTree.{ElemType, SpTree, null, node}
use snuffleupagus.VarParser.Tokens.{
  SpConfToken, all_tokens, is_undefined, is_quote, is_interpreted, is_array, same_quote,
  starts_variable, is_token_valid,
}

-- What a parse comes to: a tree, or NULL.
pub data Parse : Type 0 where
  parsed : SpTree → Parse
  refused out_of_fuel : Parse

-- `size_t` subtraction.
abbrev sub64 : ℕ → ℕ → ℕ
sub64 a b = (a + 2 ^ 64 - b) % 2 ^ 64

-- A new node at the end of a tree.
unfoldable pub append_node : SpTree → SpTree → SpTree
append_node null new = new
append_node (node type value idx next) new = node type value idx (append_node next new)

-- REGEXP_VAR and REGEXP_CONST.
abbrev regexp_var : Bytes
regexp_var = codes "^\\$[a-z_][a-z0-9_]*$"

abbrev regexp_const : Bytes
regexp_const = codes "^[a-z_0-9\\\\]*$"

-- The variables of the loop of `parse_tokens`; `pos_idx_start` is none for -1. The tree is `null`
-- as long as its node is UNDEFINED.
pub record Loop : Type 0 where
  pub pos : ℕ
  pub array_count : ℕ
  pub pos_idx_start : Option ℕ
  pub quote : ElemType
  pub tree : SpTree

module _ (matches : Bytes → Bytes → Bool) where
  unfoldable pub is_var_name_valid : Bytes → Bool
  is_var_name_valid name = matches regexp_var name || matches regexp_const name

  abbrev var_type : Bytes → ElemType → ElemType
  var_type value ElemType.constant =
      if starts_variable value then ElemType.var else ElemType.constant
  var_type value type = type

  -- An index that is refused is NULL.
  abbrev with_idx : SpTree → ElemType → Bytes → Parse → Parse
  unfolding append_node
  with_idx tree type value (Parse.parsed idx) =
      Parse.parsed (append_node tree (node type value idx null))
  with_idx tree type value Parse.refused =
      Parse.parsed (append_node tree (node type value null null))
  with_idx tree type value Parse.out_of_fuel = Parse.out_of_fuel

  abbrev parse_idx : (Bytes → Parse) → Option Bytes → Parse
  parse_idx parse none = Parse.refused
  parse_idx parse (some idx) = parse idx

  -- `value` is what the pointer leads to, and `parse` the call of `sp_parse_var`.
  unfoldable pub create_var : (Bytes → Parse) → SpTree → Bytes → ℕ → ElemType → Option Bytes → Parse
  unfolding is_var_name_valid with_idx
  create_var parse tree value value_len type idx =
      if not (is_interpreted (var_type value type))
        && not (is_var_name_valid (take value_len value))
      then Parse.refused
      else with_idx tree (var_type value type) (take value_len value) (parse_idx parse idx)

  module _ (parse : Bytes → Parse) (str : Bytes) where
    abbrev created : (Loop → Parse) → SpConfToken → Loop → Parse → Parse
    created rest token l (Parse.parsed tree) =
        rest
          (record l { tree = tree; pos = token.pos + length token.text_repr; pos_idx_start = none })
    created rest token l Parse.refused = Parse.refused
    created rest token l Parse.out_of_fuel = Parse.out_of_fuel

    -- The text of the index, from `pos_idx_start` to the token.
    abbrev idx_of : Option ℕ → SpConfToken → Option Bytes
    idx_of none token = none
    idx_of (some start) token =
        if ltb 0 start then some (take (sub64 token.pos start) (drop start str)) else none

    abbrev idx_length : Option Bytes → ℕ
    idx_length none = 0
    idx_length (some idx) = length idx

    -- What is done at a token that stands outside quotes and leaves no bracket open.
    abbrev make : (Loop → Parse) → SpConfToken → ElemType → Loop → Parse
    unfolding create_var
    make rest token type l =
        let idx = idx_of l.pos_idx_start token in
        let behind = if is_array type then length token.text_repr else 0 in
        created rest token l (
          create_var parse l.tree (drop l.pos str)
            (sub64 (sub64 (sub64 token.pos l.pos) behind) (idx_length idx)) type idx)

    abbrev at_depth : (Loop → Parse) → SpConfToken → ElemType → Loop → Parse
    unfolding make
    at_depth rest token type l = if l.array_count == 0 then make rest token type l else rest l

    abbrev opened : SpConfToken → Loop → Loop
    opened token l = record l {
      pos_idx_start =
          if l.array_count == 0 then some (token.pos + length token.text_repr) else l.pos_idx_start;
      array_count = l.array_count + 1;
    }

    abbrev outside : (Loop → Parse) → SpConfToken → ElemType → Loop → Parse
    unfolding at_depth
    outside rest token ElemType.array l = at_depth rest token ElemType.array (opened token l)
    outside rest token ElemType.array_end l =
        at_depth rest token ElemType.array (record l { array_count = l.array_count - 1 })
    outside rest token type l = at_depth rest token type l

    abbrev next_quote : ElemType → ElemType → ElemType
    next_quote quote type =
        if is_undefined quote
        then type
        else if same_quote quote type
        then ElemType.undefined
        else quote

    abbrev at_quote : SpConfToken → Loop → Loop
    at_quote token l = record l {
      pos =
          if is_undefined l.quote && l.array_count == 0
          then l.pos + length token.text_repr
          else l.pos;
      quote = next_quote l.quote token.type;
    }

    abbrev unless_quoted : (Loop → Parse) → SpConfToken → ElemType → Loop → Parse
    unfolding outside
    unless_quoted rest token type l =
        if is_undefined l.quote then outside rest token type l else rest l

    -- The body of the loop; `rest` goes on with the tokens behind.
    unfoldable pub at_token : (Loop → Parse) → SpConfToken → Option SpConfToken → Loop → Parse
    unfolding is_token_valid unless_quoted
    at_token rest token next l =
        if not (is_token_valid token.type token next l.quote l.array_count str l.pos)
        then Parse.refused
        else if is_quote token.type
        then unless_quoted rest token ElemType.interpreted_string (at_quote token l)
        else unless_quoted rest token token.type l

    -- What stands behind the loop.
    unfoldable pub finish : Loop → Parse
    unfolding create_var
    finish l =
        if not (l.array_count == 0)
        then Parse.refused
        else if not (is_undefined l.quote)
        then Parse.refused
        else if l.pos == length str
        then Parse.parsed l.tree
        else create_var parse l.tree (drop l.pos str) (sub64 (length str) l.pos) ElemType.constant
            none

    abbrev head_of : List SpConfToken → Option SpConfToken
    head_of [] = none
    head_of (t ∷ _) = some t

    unfoldable pub parse_tokens : List SpConfToken → Loop → Parse
    unfolding at_token finish
    parse_tokens [] l = finish l
    parse_tokens (token ∷ tokens) l = at_token (parse_tokens tokens) token (head_of tokens) l

  abbrev start : Loop
  start = record {
    pos = 0;
    array_count = 0;
    pos_idx_start = none;
    quote = ElemType.undefined;
    tree = null;
  }

  -- "Check if tree is empty."
  abbrev not_empty : Parse → Parse
  not_empty (Parse.parsed null) = Parse.parsed (node ElemType.constant [] null null)
  not_empty p = p

  -- Every call of it for an index takes a unit of fuel.
  unfoldable pub parse_with : ℕ → Bytes → Parse
  unfolding parse_tokens all_tokens
  parse_with zero line = Parse.out_of_fuel
  parse_with (suc fuel) line =
      not_empty (parse_tokens (parse_with fuel) line (all_tokens line) start)

  -- An index is shorter than the line.
  unfoldable pub sp_parse_var : Bytes → Parse
  unfolding parse_with
  sp_parse_var line = parse_with (length line + 1) line
