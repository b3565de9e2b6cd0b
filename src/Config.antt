-- ===== src/Config.antt =====
-- src/sp_config.c and the helpers of src/sp_config_scanner.re: keywords of a rule, the dispatch of a
-- rule over a table of keywords, and the parsers of arguments.
-- A table of `{func, token, retval}` is a list of tokens with handlers; a `retval` pointer is a pair of
-- a reader and a writer of the state `S` that the table fills. Messages are not modelled.
pub mod Arguments
pub mod Rules
pub mod Preserve
use snuffleupagus.Base.{
  c_string, ℕ, zero, suc, ◌+◌, ◌-◌, ◌%◌, ◌^◌, Bool, true, false, not, ◌&&◌, ◌||◌, List, [], ◌∷◌,
  ◌++◌, Option, none, some, ℤ, pos, negsuc, pos_part, neg_part, ltb, ◌==◌, is_set, if◌then◌else◌,
  length, Bytes, codes, equals, equals_ci,
}
use snuffleupagus.Ini.{SpRegexp}
use snuffleupagus.Network.{Inet, SpCidr, Parsed, parsed, get_ip_and_cidr}
use snuffleupagus.SpList.{sp_list_insert}
use snuffleupagus.Zval.{SpPhpType}

pub data ArgType : Type 0 where
  unknown no_parens empty str : ArgType

-- `sp_parsed_keyword`; the lengths are those of the texts, and `arg` is none for NULL.
pub record SpParsedKeyword : Type 0 where
  pub kw : Bytes
  pub arg : Option Bytes
  pub argtype : ArgType

-- The loop of `sp_get_arg_string`. Behind the last byte stands a NUL.
unfoldable pub unescape : Bytes → Bytes
unescape [] = []
unescape (c ∷ []) = (if c == b'\\' then 0 else c) ∷ []
unescape (c ∷ d ∷ s) =
    let escaped = d ∷ unescape s in
    let plain = c ∷ unescape (d ∷ s) in if c == b'\\' then escaped else plain

unfoldable pub sp_get_arg_string : SpParsedKeyword → Option Bytes
unfolding unescape
sp_get_arg_string k = elim (k.arg) [ none ↦ none | some a ↦ some (unescape a) ]

abbrev pub arg_length : Option Bytes → ℕ
arg_length none = 0
arg_length (some a) = length a

abbrev kw_len : ArgType → Option Bytes → ℕ
kw_len ArgType.empty arg = 2
kw_len ArgType.str arg = 2 + arg_length arg + 2
kw_len _ arg = 0

-- The first loop of `sp_get_textual_representation`.
unfoldable pub representation_len : List SpParsedKeyword → ℕ
representation_len [] = 0
representation_len (k ∷ rule) = 1 + length k.kw + kw_len k.argtype k.arg + representation_len rule

abbrev has_parens : ArgType → Bool
has_parens ArgType.no_parens = false
has_parens _ = true

abbrev quoted : ArgType → Option Bytes → Bytes
quoted ArgType.str (some a) = b'"' ∷ (a ++ b'"' ∷ [])
quoted _ _ = []

abbrev pub shown : SpParsedKeyword → Bytes
shown k =
    b'.'
    ∷ (k.kw
        ++ ((if has_parens k.argtype then b'(' ∷ [] else [])
            ++ (quoted k.argtype k.arg ++ (if has_parens k.argtype then b')' ∷ [] else []))))

-- The second loop.
unfoldable pub representation_from : List SpParsedKeyword → Bytes
representation_from [] = []
representation_from (k ∷ rule) = shown k ++ representation_from rule

unfoldable pub sp_get_textual_representation : List SpParsedKeyword → Bytes
unfolding representation_from
sp_get_textual_representation rule = codes "sp" ++ (representation_from rule ++ b';' ∷ [])

-- SP_PARSER_SUCCESS, SP_PARSER_ERROR and SP_PARSER_STOP.
pub data Status : Type 0 where
  success error stop : Status

pub data ZendResult : Type 0 where
  succeeded failed : ZendResult

-- The ladder of `parse_php_type`.
php_type_of : Bytes → Option SpPhpType
php_type_of value =
    if equals_ci value (codes "undef")
    then some SpPhpType.undef
    else if equals_ci value (codes "null")
    then some SpPhpType.null
    else if equals_ci value (codes "true")
    then some SpPhpType.true
    else if equals_ci value (codes "false")
    then some SpPhpType.false
    else if equals_ci value (codes "long")
    then some SpPhpType.long
    else if equals_ci value (codes "double")
    then some SpPhpType.double
    else if equals_ci value (codes "string")
    then some SpPhpType.string
    else if equals_ci value (codes "array")
    then some SpPhpType.array
    else if equals_ci value (codes "object")
    then some SpPhpType.object
    else if equals_ci value (codes "resource")
    then some SpPhpType.resource
    else if equals_ci value (codes "reference")
    then some SpPhpType.reference
    else none

-- `(int)` of an intmax_t: its low 32 bits, as a signed number.
int32_of : ℤ → ℤ
int32_of v =
    let w = (pos_part v % 2 ^ 32 + 2 ^ 32 - neg_part v % 2 ^ 32) % 2 ^ 32 in
    if ltb w (2 ^ 31) then pos w else negsuc (2 ^ 32 - w - 1)

-- `strsep` at commas, and a new item for each piece; `piece` is what was read of the current one.
add_pieces : List Bytes → Bytes → Bytes → List Bytes
add_pieces list piece [] = sp_list_insert list piece
add_pieces list piece (c ∷ s) =
    let next = if c == b',' then [] else piece ++ c ∷ [] in
    add_pieces (if c == b',' then sp_list_insert list piece else list) next s

abbrev pub list_head {ℓ} : {A : Type ℓ} → List A → Option A
list_head [] = none
list_head (x ∷ _) = some x

-- A handler gets its keyword and those behind it, and may change the state even if it fails.
abbrev pub Handler : Type 0 → Type 0
Handler S = SpParsedKeyword → List SpParsedKeyword → S → Status × S

abbrev pub Table : Type 0 → Type 0
Table S = List (Bytes × Handler S)

module _ {S : Type 0} where
  -- The inner loop: the first handler whose token is the keyword.
  unfoldable pub find_handler : Bytes → Table S → Option (Handler S)
  find_handler kw [] = none
  find_handler kw ((token, func) ∷ table) =
      if equals kw token then some func else find_handler kw table

  -- What the outer loop does with the status of a keyword; `rest` is what is left of the loop.
  unfoldable pub after : Status × S → (S → ZendResult × S) → ZendResult × S
  after (Status.success, s) rest = rest s
  after (Status.error, s) rest = (ZendResult.failed, s)
  after (Status.stop, s) rest = (ZendResult.succeeded, s)

  unfoldable pub sp_process_rule : Table S → List SpParsedKeyword → S → ZendResult × S
  unfolding find_handler after
  sp_process_rule table [] s = (ZendResult.succeeded, s)
  sp_process_rule table (k ∷ rule) s =
      let rest = λ (t : S). sp_process_rule table rule t in
      elim (find_handler k.kw table) [
        | none ↦ (ZendResult.failed, s)
        | some func ↦ after (func k rule s) rest
      ]

  -- SP_PARSE_ARG: an error if there is no argument.
  abbrev pub with_arg : SpParsedKeyword → S → (Bytes → Status × S) → Status × S
  with_arg k s f = elim (sp_get_arg_string k) [ none ↦ (Status.error, s) | some value ↦ f value ]

  -- CHECK_DUPLICATE_KEYWORD: an error if the value is there already.
  abbrev pub unless_set {ℓ} : {A : Type ℓ} → Option A → S → Status × S → Status × S
  unless_set old s next = if is_set old then (Status.error, s) else next

  unfoldable pub parse_empty : (S → S) → Handler S
  parse_empty write k rule s =
      if not (arg_length k.arg == 0)
      then (Status.error, s)
      else elim (k.argtype) [ ArgType.empty ↦ (Status.success, write s) | _ ↦ (Status.error, s) ]

  unfoldable pub parse_str : (S → Option Bytes) → (Option Bytes → S → S) → Handler S
  parse_str read write k rule s =
      unless_set (read s) s (with_arg k s (λ value. (Status.success, write (some value) s)))

  unfoldable pub parse_list : (S → List Bytes) → (List Bytes → S → S) → Handler S
  unfolding add_pieces c_string
  parse_list read write k rule s =
      unless_set (list_head (read s)) s (
        with_arg k s (λ value. (Status.success, write (add_pieces (read s) [] (c_string value)) s)))

  unfoldable pub parse_php_type : (SpPhpType → S → S) → Handler S
  unfolding php_type_of
  parse_php_type write k rule s = with_arg k s (λ value. elim (php_type_of value) [
    | none ↦ (Status.error, s)
    | some t ↦ (Status.success, write t s)
  ])

  -- `strtoimax` and `strtoul` give a number, and whether `errno` is 0 and something was read. The
  -- number is written in either case.
  module _ (strtoimax : Bytes → ℤ × Bool) (strtoul : Bytes → ℕ × Bool) where
    unfoldable pub parse_int : (ℤ → S → S) → Handler S
    unfolding int32_of
    parse_int write k rule s = with_arg k s (λ value. (
      if (strtoimax (c_string value)).1 then Status.success else Status.error,
      write (int32_of (strtoimax (c_string value)).0) s,
    ))

    unfoldable pub parse_uint : (ℕ → S → S) → Handler S
    parse_uint write k rule s = with_arg k s (λ value. (
      if (strtoul (c_string value)).1 then Status.success else Status.error,
      write ((strtoul (c_string value)).0 % 2 ^ 32) s,
    ))

    unfoldable pub parse_ulong : (ℕ → S → S) → Handler S
    parse_ulong write k rule s = with_arg k s (λ value. (
      if (strtoul (c_string value)).1 then Status.success else Status.error,
      write ((strtoul (c_string value)).0 % 2 ^ 64) s,
    ))

  unfoldable pub parse_cidr : Inet → (S → Option SpCidr) → (Option SpCidr → S → S) → Handler S
  parse_cidr inet read write k rule s = unless_set (read s) s (
      with_arg k s (λ value. elim (get_ip_and_cidr inet (c_string value)) [
        | parsed cidr ↦ (Status.success, write (some cidr) s)
        | Parsed.invalid ↦ (Status.error, write none s)
        | Parsed.assert_failed ↦ (Status.error, write none s)
      ]))

  -- `compiles` says whether PCRE accepts a pattern, which it gets as a C string.
  unfoldable pub parse_regexp :
      (Bytes → Bool) → (S → Option SpRegexp) → (Option SpRegexp → S → S) → Handler S
  parse_regexp compiles read write k rule s = unless_set (read s) s (
      with_arg k s (λ value.
        if compiles (c_string value)
        then (Status.success, write (some (record { pattern = value })) s)
        else (Status.error, s)))
