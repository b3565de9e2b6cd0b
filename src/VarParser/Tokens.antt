-- ===== src/VarParser/Tokens.antt =====
-- The tokens of src/sp_var_parser.c, and where each may stand.
use Prim.Native.String.{String}
use snuffleupagus.Base.{
  ℕ, zero, suc, ◌+◌, ◌-◌, Bool, true, false, not, ◌&&◌, ◌||◌, List, [], ◌∷◌, Option, none, some,
  ltb, ◌==◌, if◌then◌else◌, length, Bytes, codes, starts_with,
}
use snuffleupagus.SpList.{sp_list_insert, sp_list_sort}
use snuffleupagus.SpTree.{ElemType}

-- `sp_conf_token`.
pub record SpConfToken : Type 0 where
  pub type : ElemType
  pub text_repr : Bytes
  pub pos : ℕ

-- The loop of `parse_str_tokens` at a position of the line; `skip` is what is left of a token.
unfoldable pub tokens_from : ElemType → Bytes → ℕ → ℕ → Bytes → List SpConfToken → List SpConfToken
unfolding sp_list_insert starts_with
tokens_from type repr at skip [] list = list
tokens_from type repr at (suc skip) (c ∷ s) list = tokens_from type repr (at + 1) skip s list
tokens_from type repr at zero (c ∷ s) list =
    let found = starts_with repr (c ∷ s) in
    tokens_from type repr (at + 1) (if found then length repr - 1 else 0) s (
      if found
      then sp_list_insert list (record { type = type; text_repr = repr; pos = at })
      else list)

unfoldable pub parse_str_tokens : Bytes → ElemType → String → List SpConfToken → List SpConfToken
unfolding tokens_from
parse_str_tokens str type repr list = tokens_from type (codes repr) 0 0 str list

abbrev pub cmp_tokens : SpConfToken → SpConfToken → Bool
cmp_tokens a b = ltb a.pos b.pos

-- The delimiters of `sp_parse_var`, looked for one after the other.
unfoldable pub all_tokens : Bytes → List SpConfToken
unfolding parse_str_tokens sp_list_sort
all_tokens line =
    let l = parse_str_tokens line ElemType.object "->" [] in
    let l = parse_str_tokens line ElemType.array "[" l in
    let l = parse_str_tokens line ElemType.array_end "]" l in
    let l = parse_str_tokens line ElemType.interpreted_string "\"" l in
    let l = parse_str_tokens line ElemType.literal_string "'" l in
    sp_list_sort cmp_tokens (parse_str_tokens line ElemType.class "::" l)

abbrev pub is_undefined : ElemType → Bool
is_undefined ElemType.undefined = true
is_undefined _ = false

abbrev pub is_quote : ElemType → Bool
is_quote ElemType.interpreted_string = true
is_quote ElemType.literal_string = true
is_quote _ = false

abbrev pub is_interpreted : ElemType → Bool
is_interpreted ElemType.interpreted_string = true
is_interpreted _ = false

abbrev pub is_array : ElemType → Bool
is_array ElemType.array = true
is_array _ = false

-- `==` on the types of quotes.
abbrev pub same_quote : ElemType → ElemType → Bool
same_quote ElemType.interpreted_string ElemType.interpreted_string = true
same_quote ElemType.literal_string ElemType.literal_string = true
same_quote _ _ = false

-- `is_next_token_empty`, where true is -1; `next` is the token behind.
unfoldable pub is_next_token_empty : SpConfToken → Option SpConfToken → Bytes → Bool
is_next_token_empty token (some next) str = next.pos == token.pos + length token.text_repr
is_next_token_empty token none str = token.pos == length str - length token.text_repr

abbrev pub starts_variable : Bytes → Bool
starts_variable [] = false
starts_variable (c ∷ _) = c == b'$'

-- The cases of `is_token_valid`, where true is 0.
abbrev pub quote_valid : SpConfToken → Option SpConfToken → ElemType → Bytes → Bool
quote_valid token (some next) quote str =
    not (same_quote quote token.type) || next.pos == token.pos + 1
quote_valid token none quote str = not (same_quote quote token.type) || token.pos == length str - 1

abbrev pub end_valid : SpConfToken → Option SpConfToken → ElemType → ℕ → Bytes → Bool
end_valid token (some next) quote array_count str =
    not (is_undefined quote) || (not (ltb array_count 1) && not (is_quote next.type))
end_valid token none quote array_count str =
    not (is_undefined quote)
    || (not (ltb array_count 1) && token.pos == length str - length token.text_repr)

unfoldable pub is_token_valid :
    ElemType → SpConfToken → Option SpConfToken → ElemType → ℕ → Bytes → ℕ → Bool
unfolding is_next_token_empty
is_token_valid ElemType.literal_string token next quote array_count str pos =
    quote_valid token next quote str
is_token_valid ElemType.interpreted_string token next quote array_count str pos =
    quote_valid token next quote str
is_token_valid ElemType.array_end token next quote array_count str pos =
    end_valid token next quote array_count str
is_token_valid ElemType.object token next quote array_count str pos =
    not (is_undefined quote && is_next_token_empty token next str)
    && not (pos == 0 && not (starts_variable str))
is_token_valid ElemType.class token next quote array_count str pos =
    not (is_undefined quote && is_next_token_empty token next str)
is_token_valid _ token next quote array_count str pos = true
