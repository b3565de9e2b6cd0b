-- ===== src/Tests/Lifecycle.antt =====
-- The life of the extension in a process: the module of the sessions, and the dump.
use snuffleupagus.Base.{
  ℕ, ◌+◌, ◌-◌, ◌<◌, ◌≡◌, ◌≢◌, refl, true, arith, List, [], ◌∷◌, Option, none, some, Bytes, codes,
  pos, length, All, ℤ,
}
use snuffleupagus.Dump.{dump_config, each}
use snuffleupagus.Dump.Rules.{dump_config-rules, listed, rule_value}
use snuffleupagus.Dump.Secret.{dump_config-same, with_key}
use snuffleupagus.Globals.{SpGlobals}
use snuffleupagus.Network.{Inet, Address, ipv4, ipv6, SpCidr, get_ip_and_cidr, parsed}
use snuffleupagus.Network.Written.{IsNtop, Reads, ipstr_len, get_ip_str, get_ip_and_cidr-get_ip_str}
use snuffleupagus.Session.Module.{
  theirs, Struct, original, State, hook_session, Event, save_handler, request,
}
use snuffleupagus.Session.Module.Selected.{IsFresh, Serves, happen_all, hook_session-Serves}
use snuffleupagus.Tests.Samples.{start, drop_ls, drop_return}
use snuffleupagus.VarValue.{str_find}
use snuffleupagus.Zval.{SpPhpType}

-- Three modules of PHP; the first one is in use.
abbrev modules : ℕ → Struct
modules m = record { s_read = theirs m; s_write = theirs (m + 3); rest = m }

abbrev sessions : State
sessions = record {
  memory = modules;
  next = 3;
  session_mod = some 0;
  s_module = none;
  s_original_mod = none;
  old_s_read = none;
  old_s_write = none;
  startup = original;
  previous_session_rinit = none;
  on_modify = some original;
  old_OnUpdateSaveHandler = none;
}

sessions-IsFresh : IsFresh modules 3 sessions
sessions-IsFresh = record {
  next_free = refl;
  unchanged = λ m h. refl;
  below = omega arith;
  no_original = refl;
  not_hooked = refl;
  startup_original = refl;
  has_setting = refl;
}

-- A request, a change to another module, and one more request.
abbrev events : List Event
events = request none ∷ save_handler (some 2) ∷ request none ∷ []

hook_session-Serves_example :
    (s' : State) × (happen_all true events (hook_session true true sessions) ≡ some s')
    × Serves modules (some 2) s'
hook_session-Serves_example =
    hook_session-Serves modules 3 events sessions sessions-IsFresh (omega arith)

-- Addresses are written with a character for each word.
abbrev read4 : Bytes → Option ℕ
read4 (c ∷ []) = some (c - 100)
read4 _ = none

abbrev read6 : Bytes → Option (List ℕ)
read6 (a ∷ b ∷ c ∷ d ∷ []) = some ((a - 100) ∷ (b - 100) ∷ (c - 100) ∷ (d - 100) ∷ [])
read6 _ = none

abbrev inet : Inet
inet = record { pton4 = read4; pton6 = read6 }

abbrev words : List ℕ → Bytes
words [] = []
words (w ∷ ws) = (w + 100) ∷ words ws

abbrev ntop : Address → Option Bytes
ntop (ipv4 a) = some (words (a ∷ []))
ntop (ipv6 ws) = some (words ws)

abbrev Printed : Address → Type 0
Printed a =
    (t : Bytes) × (ntop a ≡ some t)
    × (length t < ipstr_len a)
    × All (λ c. c ≢ b'/') t
    × Reads inet t a

printed6 : (ws : List ℕ) → length ws ≡ 4 → Printed (ipv6 ws)
printed6 (a ∷ b ∷ c ∷ d ∷ []) h = (
  words (a ∷ b ∷ c ∷ d ∷ []),
  refl,
  omega arith,
  ((λ e. omega arith), ((λ e. omega arith), ((λ e. omega arith), ((λ e. omega arith), tt)))),
  (refl, ground arith),
)
printed6 ws h = absurd (ground arith)

inet-IsNtop : IsNtop inet ntop
inet-IsNtop (ipv4 a) mask h =
    (words (a ∷ []), refl, omega arith, ((λ e. omega arith), tt), ground arith)
inet-IsNtop (ipv6 ws) mask h = printed6 ws h.1

abbrev home : SpCidr
home = record { ip = ipv4 0x7f000001; mask = 32 }

get_ip_and_cidr-get_ip_str_example :
    (text : Bytes) × (get_ip_str ntop 51 home ≡ some text)
    × (get_ip_and_cidr inet text ≡ parsed home)
get_ip_and_cidr-get_ip_str_example =
    get_ip_and_cidr-get_ip_str inet ntop inet-IsNtop home (omega arith, omega arith)

abbrev number : SpPhpType → ℤ
number t = pos 0

dump_config-same_example :
    dump_config ntop number (with_key start (codes "one"))
    ≡ dump_config ntop number (with_key start (codes "another"))
dump_config-same_example =
    dump_config-same ntop number start (codes "one") (codes "another") (omega arith) (omega arith)

abbrev with_rules : SpGlobals
with_rules = record start {
  disabled_functions = (codes "system", drop_ls ∷ []) ∷ [];
  disabled_functions_ret = (codes "system", drop_return ∷ []) ∷ [];
}

dump_config-rules_example :
    str_find (dump_config ntop number with_rules) (codes "disable_function")
    ≡ some (listed ntop number (each (rule_value ntop number) (drop_ls ∷ drop_return ∷ [])))
dump_config-rules_example = dump_config-rules ntop number with_rules
