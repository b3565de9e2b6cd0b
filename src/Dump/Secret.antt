-- ===== src/Dump/Secret.antt =====
-- The key of the encryption in the dump of src/snuffleupagus.c.
use snuffleupagus.Base.{ℤ, Option, some, Bytes, ◌≡◌, ◌<◌, refl, arith, [], ◌∷◌, length}
use snuffleupagus.Dump.{dump_config, dump_rules, config_calls}
use snuffleupagus.Globals.{SpGlobals}
use snuffleupagus.Network.{Address}
use snuffleupagus.Zval.{SpPhpType}

abbrev pub with_key : SpGlobals → Bytes → SpGlobals
with_key g key = record g { encryption_key = some key }

-- The dump tells of the key for the encryption only whether there is one: with two keys that are not
-- empty it is the same.
pub dump_config-same :
    (ntop : Address → Option Bytes) (type_number : SpPhpType → ℤ) (g : SpGlobals) (key key' : Bytes)
    → 0 < length key
    → 0 < length key'
    → dump_config ntop type_number (with_key g key) ≡ dump_config ntop type_number (with_key g key')
unfolding dump_config config_calls dump_rules
dump_config-same ntop type_number g [] key' p q = absurd (omega arith)
dump_config-same ntop type_number g (c ∷ s) [] p q = absurd (omega arith)
dump_config-same ntop type_number g (c ∷ s) (d ∷ t) p q = refl
