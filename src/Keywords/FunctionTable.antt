-- ===== src/Keywords/FunctionTable.antt =====
-- The keywords of a rule of `sp.disable_function`.
use snuffleupagus.Base.{Bool, true, false, [], ◌∷◌, Option, none, Bytes, codes}
use snuffleupagus.Config.{
  Table, parse_empty, parse_str, parse_regexp, parse_php_type, parse_cidr, parse_int, parse_uint,
}
use snuffleupagus.Globals.{Libs, SpDisabledFunction, new_disabled_function}

-- The locals of `parse_disabled_functions`.
pub record FunctionRule : Type 0 where
  pub enable : Bool
  pub disable : Bool
  pub allow : Bool
  pub drop : Bool
  pub var : Option Bytes
  pub param : Option Bytes
  pub df : SpDisabledFunction

abbrev pub new_function_rule : FunctionRule
new_function_rule = record {
  enable = false;
  disable = false;
  allow = false;
  drop = false;
  var = none;
  param = none;
  df = new_disabled_function;
}

abbrev on_df : (SpDisabledFunction → SpDisabledFunction) → FunctionRule → FunctionRule
on_df f r = record r { df = f r.df }

abbrev pub function_keywords : Libs → Table FunctionRule
function_keywords libs =
    (codes "enable", parse_empty (λ r. record r { enable = true }))
    ∷ (codes "disable", parse_empty (λ r. record r { disable = true }))
    ∷ (codes "alias", parse_str (λ r. r.df.alias) (λ v. on_df (λ d. record d { alias = v })))
    ∷ (codes "simulation", parse_empty (on_df (λ d. record d { simulation = true })))
    ∷ (codes "sim", parse_empty (on_df (λ d. record d { simulation = true })))
    ∷ (
      codes "filename",
      parse_str (λ r. r.df.filename) (λ v. on_df (λ d. record d { filename = v })),
    )
    ∷ (
      codes "filename_r",
      parse_regexp libs.compiles (λ r. r.df.r_filename)
          (λ v. on_df (λ d. record d { r_filename = v })),
    )
    ∷ (
      codes "function",
      parse_str (λ r. r.df.function) (λ v. on_df (λ d. record d { function = v })),
    )
    ∷ (
      codes "function_r",
      parse_regexp libs.compiles (λ r. r.df.r_function)
          (λ v. on_df (λ d. record d { r_function = v })),
    )
    ∷ (codes "dump", parse_str (λ r. r.df.dump) (λ v. on_df (λ d. record d { dump = v })))
    ∷ (codes "allow", parse_empty (λ r. record r { allow = true }))
    ∷ (codes "drop", parse_empty (λ r. record r { drop = true }))
    ∷ (codes "hash", parse_str (λ r. r.df.hash) (λ v. on_df (λ d. record d { hash = v })))
    ∷ (codes "param", parse_str (λ r. r.param) (λ v r. record r { param = v }))
    ∷ (
      codes "value_r",
      parse_regexp libs.compiles (λ r. r.df.r_value) (λ v. on_df (λ d. record d { r_value = v })),
    )
    ∷ (codes "value", parse_str (λ r. r.df.value) (λ v. on_df (λ d. record d { value = v })))
    ∷ (codes "key", parse_str (λ r. r.df.key) (λ v. on_df (λ d. record d { key = v })))
    ∷ (
      codes "key_r",
      parse_regexp libs.compiles (λ r. r.df.r_key) (λ v. on_df (λ d. record d { r_key = v })),
    )
    ∷ (
      codes "param_r",
      parse_regexp libs.compiles (λ r. r.df.r_param) (λ v. on_df (λ d. record d { r_param = v })),
    )
    ∷ (codes "param_type", parse_php_type (λ v. on_df (λ d. record d { param_type = v })))
    ∷ (codes "ret", parse_str (λ r. r.df.ret) (λ v. on_df (λ d. record d { ret = v })))
    ∷ (
      codes "cidr",
      parse_cidr libs.inet (λ r. r.df.cidr) (λ v. on_df (λ d. record d { cidr = v })),
    )
    ∷ (
      codes "ret_r",
      parse_regexp libs.compiles (λ r. r.df.r_ret) (λ v. on_df (λ d. record d { r_ret = v })),
    )
    ∷ (codes "ret_type", parse_php_type (λ v. on_df (λ d. record d { ret_type = v })))
    ∷ (codes "var", parse_str (λ r. r.var) (λ v r. record r { var = v }))
    ∷ (
      codes "pos",
      parse_int libs.strtoimax libs.strtoul (λ v. on_df (λ d. record d { position = v })),
    )
    ∷ (
      codes "line",
      parse_uint libs.strtoimax libs.strtoul (λ v. on_df (λ d. record d { line = v })),
    )
    ∷ []
