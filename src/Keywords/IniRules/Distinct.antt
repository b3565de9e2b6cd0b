-- ===== src/Keywords/IniRules/Distinct.antt =====
-- The entries of the INI protection.
use mathlib.Core.Option.{some-injective}
use mathlib.Core.Path.{subst}
use snuffleupagus.Base.{
  ◌≡◌, refl, Bool, true, false, ◌&&◌, ◌||◌, List, [], ◌∷◌, ◌++◌, Option, none, some, Bytes, All,
  Bool-cases, inl, inr, arith, equals, is_set, if◌then◌else◌, All-append,
}
use snuffleupagus.Config.{ZendResult, SpParsedKeyword, sp_process_rule}
use snuffleupagus.Globals.{SpGlobals, Libs}
use snuffleupagus.Ini.{ConfigIni, IniEntry, find}
use snuffleupagus.Keywords.IniRules.{
  Access, EntryRule, new_access, new_entry, entry_keywords, add_entry, with_ini, finish_entry,
  read_entry, parse_ini_entry,
}

-- No key stands twice, and an entry knows its key.
abbrev pub AreKeyed : List (Bytes × IniEntry) → Type 0
AreKeyed [] = Unit
AreKeyed (x ∷ list) = (x.1.key ≡ x.0) × All (λ y. equals x.0 y.0 ≡ false) list × AreKeyed list

AreKeyed-append :
    (list : List (Bytes × IniEntry)) (key : Bytes) (e : IniEntry)
    → e.key ≡ key
    → find key list ≡ none
    → AreKeyed list
    → AreKeyed (list ++ (key, e) ∷ [])
unfolding find
AreKeyed-append [] key e same fresh h = (same, tt, tt)
AreKeyed-append ((name, x) ∷ list) key e same fresh (k, g, h) =
    elim (Bool-cases (equals name key)) [
      | inl q ↦ ground arith
      | inr q ↦ (
        k,
        All-append (λ y. equals name y.0 ≡ false) list ((key, e) ∷ []) g (q, tt),
        AreKeyed-append list key e same (ground arith) h,
      )
    ]

else_case :
    {A : Type 0} (c : Bool) (x t : A)
    → (if c then none else some x) ≡ some t
    → (c ≡ false) × (x ≡ t)
else_case true x t e = ground arith
else_case false x t e = (refl, some-injective x t e)

not_found : (found : Option IniEntry) (clash : Bool) → is_set found || clash ≡ false → found ≡ none
not_found none clash e = refl
not_found (some x) clash e = ground arith

add_entry-AreKeyed :
    (key : Option Bytes) (a : Access EntryRule) (ini t : ConfigIni)
    → add_entry key a ini ≡ some t
    → AreKeyed ini.entries
    → AreKeyed t.entries
unfolding add_entry
add_entry-AreKeyed none a ini t e h = ground arith
add_entry-AreKeyed (some key) a ini t e h =
    let split = else_case (is_set (find key ini.entries) || a.ro && a.rw) _ t e in
    subst (λ i. AreKeyed i.entries) split.1
      (AreKeyed-append ini.entries key _ refl
        (not_found (find key ini.entries) (a.ro && a.rw) split.0) h)

with_ini-AreKeyed :
    (a : Access EntryRule) (s : SpGlobals) (result : Option ConfigIni)
    → add_entry a.cfg.key a s.ini ≡ result
    → AreKeyed s.ini.entries
    → AreKeyed (with_ini result s).1.ini.entries
with_ini-AreKeyed a s none e h = h
with_ini-AreKeyed a s (some t) e h = add_entry-AreKeyed a.cfg.key a s.ini t e h

finish_entry-AreKeyed :
    (a : Access EntryRule) (s : SpGlobals)
    → AreKeyed s.ini.entries
    → AreKeyed (finish_entry a s).1.ini.entries
unfolding finish_entry
finish_entry-AreKeyed a s h = with_ini-AreKeyed a s (add_entry a.cfg.key a s.ini) refl h

read_entry-AreKeyed :
    (r : ZendResult × Access EntryRule) (s : SpGlobals)
    → AreKeyed s.ini.entries
    → AreKeyed (read_entry r s).1.ini.entries
unfolding read_entry
read_entry-AreKeyed (ZendResult.failed, a) s h = h
read_entry-AreKeyed (ZendResult.succeeded, a) s h = finish_entry-AreKeyed a s h

-- Whatever a rule of `sp.ini` says, reading it keeps the table of entries right: no key stands
-- twice, and each entry carries the key it is filed under.
pub parse_ini_entry-AreKeyed :
    (libs : Libs) (k : SpParsedKeyword) (rule : List SpParsedKeyword) (s : SpGlobals)
    → AreKeyed s.ini.entries
    → AreKeyed (parse_ini_entry libs k rule s).1.ini.entries
unfolding parse_ini_entry
parse_ini_entry-AreKeyed libs k rule s h =
    read_entry-AreKeyed (sp_process_rule (entry_keywords libs) rule (new_access new_entry)) s h
