-- ===== src/Tests/Variables.antt =====
-- Variables of rules, ini settings and uploads.
use snuffleupagus.Base.{
  ℕ, ◌≡◌, ◌≢◌, ◌↔◌, refl, arith, Bool, true, false, not, ◌&&◌, List, [], ◌∷◌, Option, some, none,
  Bytes, codes, equals, ◌==◌, if◌then◌else◌,
}
use snuffleupagus.Frames.{Frame, Func, FuncType}
use snuffleupagus.Globals.{ConfigUploadValidation}
use snuffleupagus.Ini.{Handler, IniEntry, ConfigIni, Permission, find}
use snuffleupagus.Ini.Hooks.{Directives, sp_hook_ini, sp_unhook_ini}
use snuffleupagus.Ini.Hooks.Restored.{IsFree, handler, sp_unhook_ini-sp_hook_ini}
use snuffleupagus.SpTree.{ElemType, SpTree, null, node}
use snuffleupagus.Tests.Samples.{texts}
use snuffleupagus.Upload.{UploadedFile, Request}
use snuffleupagus.VarParser.{Parse, sp_parse_var}
use snuffleupagus.VarParser.Ends.{sp_parse_var-ends}
use snuffleupagus.VarValue.{Php, get_object_property, sp_get_var_value}
use snuffleupagus.VarValue.Paths.{Argument, indexed, sp_get_var_value-parameter}
use snuffleupagus.Zval.{Zval, Items, Key}

-- A PCRE for which every name without an `!` is valid.
plain : Bytes → Bool
plain [] = true
plain (c ∷ s) = not (c == b'!') && plain s

abbrev matches : Bytes → Bytes → Bool
unfolding plain
matches pattern s = plain s

parses :
    sp_parse_var matches (codes "$a[b][$c[0]]->d::E")
    ≡ Parse.parsed (
        node ElemType.array (codes "$a") (node ElemType.constant (codes "b") null null) (
          node ElemType.array []
            (node ElemType.array (codes "$c") (node ElemType.constant (codes "0") null null) null)
            (node ElemType.object [] null (
              node ElemType.class
                (codes "d")
                null
                (node ElemType.constant (codes "E") null null)))))
unfolding sp_parse_var plain
parses = refl

-- An index that is refused is left out, and the variable is accepted.
index_left_out :
    sp_parse_var matches (codes "$a[!]") ≡ Parse.parsed (node ElemType.array (codes "$a") null null)
unfolding sp_parse_var plain
index_left_out = refl

refuses : sp_parse_var matches (codes "$a[b") ≡ Parse.refused
unfolding sp_parse_var plain
refuses = refl

sp_parse_var-ends_example : sp_parse_var matches (codes "$a[b[") ≢ Parse.out_of_fuel
sp_parse_var-ends_example = sp_parse_var-ends matches (codes "$a[b[")

abbrev func : Func
func = record {
  type = FuncType.internal;
  name = some (codes "system");
  scope = none;
  num_args = 2;
  arg_name = λ i. if i == 0 then codes "command" else codes "result";
  variadic = false;
  filename = [];
}

abbrev frame : Frame
frame = record { func = some func; args = Zval.string (codes "id") ∷ Zval.null ∷ [] }

-- `$t` holds an array in an array, and there are no objects.
abbrev inner : Zval
inner = Zval.array (Items.item (Key.idx 0) Zval.true Items.nil)

abbrev php : Php
php = record {
  constant = λ s. if equals s (codes "k") then some (Zval.string (codes "k")) else none;
  symbol_table =
      λ f. some ((codes "t", Zval.array (Items.item (Key.str (codes "k")) inner Items.nil)) ∷ []);
  class_name = λ o. [];
  properties = λ o. Items.nil;
  lookup_class = λ s. none;
  constants_table = λ c. Items.nil;
  atol = λ s. 0;
  beyond = λ args i. Zval.undef;
}

abbrev index : SpTree
index = node ElemType.constant (codes "k") null null

unnamed : (o : ℕ) → get_object_property texts php (frame ∷ []) o [] false ≡ none
unfolding get_object_property equals
unnamed o = refl

-- The inner lookup finds the entry at index 0, since `atol` gives 0 for a text.
indexed_value :
    sp_get_var_value texts php (frame ∷ []) (indexed (codes "$t") index (index ∷ [])) false
    ≡ some Zval.true
unfolding sp_get_var_value equals
indexed_value = refl

sp_get_var_value-parameter_example :
    (sp_get_var_value texts php (frame ∷ []) (node ElemType.var (codes "$command") null null) true
      ≡ some (Zval.string (codes "id")))
    ↔ Argument php func frame.args (codes "command") 0 2 (Zval.string (codes "id"))
sp_get_var_value-parameter_example =
    sp_get_var_value-parameter texts php func frame [] (codes "command") (Zval.string (codes "id"))
      refl

abbrev protected : IniEntry
protected = record {
  key = codes "display_errors";
  access = Permission.readonly;
  min = none;
  max = none;
  regexp = none;
  msg = none;
  set = some (codes "0");
  allow_null = false;
  simulation = false;
  drop = true;
  orig_onmodify = Handler.null;
}

abbrev ini : ConfigIni
ini = record {
  enable = true;
  simulation = false;
  policy_readonly = false;
  policy_silent_ro = false;
  policy_silent_fail = false;
  policy_drop = false;
  entries = (codes "display_errors", protected) ∷ [];
}

abbrev directives : Directives
directives =
    (codes "display_errors", record { on_modify = Handler.other 7; value = some (codes "1") })
    ∷ (codes "precision", record { on_modify = Handler.other 8; value = none })
    ∷ []

abbrev accepts : Handler → Bytes → Option Bytes → Bool
accepts h name v = true

free : (name : Bytes) → IsFree (find name directives)
unfolding find
free name = ground arith

sp_unhook_ini-sp_hook_ini_example :
    handler (find (codes "display_errors") (sp_unhook_ini (sp_hook_ini accepts ini directives)).1)
    ≡ handler (find (codes "display_errors") directives)
sp_unhook_ini-sp_hook_ini_example =
    sp_unhook_ini-sp_hook_ini accepts ini directives (refl, tt, tt) free (codes "display_errors")

hooked :
    handler (find (codes "display_errors") (sp_hook_ini accepts ini directives).1)
    ≡ some Handler.sp_ini_onmodify
unfolding sp_hook_ini find equals
hooked = refl

abbrev validation : ConfigUploadValidation
validation = record { script = some (codes "/check"); simulation = false; enable = true }

abbrev request : Request
request = record {
  remote_addr = none;
  executed_filename = codes "up.php";
  size_text = λ n. codes "1";
  fatal_errors = true;
}

abbrev sent_file : UploadedFile
sent_file = record { name = codes "a.txt"; tmp_name = codes "/tmp/a"; size = 1 }

-- A script that accepts what lies in `/tmp/a`.
abbrev script : Option Bytes → Bytes → List Bytes → Option ℕ
script path arg env = some (if equals arg (codes "/tmp/a") then 0 else 1)
