-- ===== src/Ini/Hooks/Restored.antt =====
-- What `sp_unhook_ini` gives back.
use mathlib.Core.Path.{subst}
use snuffleupagus.Base.{
  ◌≡◌, refl, ap, ◌∙◌, sym, arith, Bool, false, [], ◌∷◌, Option, none, some, Bytes, All, equals,
  equals_iff, equals_refl, Bool-cases, inl, inr, if◌then◌else◌,
}
use snuffleupagus.HashTable.{find-put}
use snuffleupagus.Ini.{Handler, IniEntry, ConfigIni, find}
use snuffleupagus.Keywords.IniRules.Distinct.{AreKeyed}
use snuffleupagus.Ini.Hooks.{
  ZendIniEntry, Directives, Entries, with_handler, with_value, hook_found, hook_entries,
  sp_hook_ini, is_ours, unhooked, unhook_found, unhook_entries, sp_unhook_ini,
}

-- No entry is for a setting of this name, and no two for the same.
abbrev Absent : Bytes → Entries → Type 0
Absent name = All (λ e. equals e.1.key name ≡ false)

abbrev pub AreDistinct : Entries → Type 0
AreDistinct [] = Unit
AreDistinct ((k, e) ∷ entries) = Absent e.key entries × AreDistinct entries

-- No setting has the handler of the extension.
abbrev pub IsFree : Option ZendIniEntry → Type 0
IsFree none = Unit
IsFree (some d) = is_ours d.on_modify ≡ false

-- The handler of a setting, if there is such a setting.
abbrev pub handler : Option ZendIniEntry → Option Handler
handler none = none
handler (some d) = some d.on_modify

unhook_one : Bytes → IniEntry → Option ZendIniEntry → Option ZendIniEntry
unhook_one name e none = none
unhook_one name e (some d) = some (if equals e.key name then unhooked e d else d)

unhook_one-same :
    (name : Bytes) (e : IniEntry) (o : Option ZendIniEntry)
    → equals e.key name ≡ false
    → unhook_one name e o ≡ o
unfolding unhook_one
unhook_one-same name e none q = refl
unhook_one-same name e (some d) q = rw q

find-unhook_found :
    (name : Bytes) (e : IniEntry) (directives : Directives) (o : Option ZendIniEntry)
    → find e.key directives ≡ o
    → find name (unhook_found e directives o).1 ≡ unhook_one name e (find name directives)
unfolding unhook_found unhook_one
find-unhook_found name e directives none h = elim (Bool-cases (equals e.key name)) [
  | inl q ↦ rw (ap (λ k. find k directives) (sym ((equals_iff e.key name).0 q)) ∙ h)
  | inr q ↦ sym (unhook_one-same name e (find name directives) q)
]
find-unhook_found name e directives (some d) h =
    rw (find-put e.key name (unhooked e d) directives, h)
      (elim (Bool-cases (equals e.key name)) [
        | inl q ↦ rw (q, ap (λ k. find k directives) (sym ((equals_iff e.key name).0 q)) ∙ h) (rw q)
        | inr q ↦ rw q (sym (unhook_one-same name e (find name directives) q))
      ])

-- The removal at one setting.
unhook_at : Bytes → Entries → Option ZendIniEntry → Option ZendIniEntry
unhook_at name [] o = o
unhook_at name ((k, e) ∷ entries) o = unhook_at name entries (unhook_one name e o)

find-unhook_entries :
    (name : Bytes) (entries : Entries) (directives : Directives)
    → find name (unhook_entries entries directives).1
      ≡ unhook_at name entries (find name directives)
unfolding unhook_entries unhook_at
find-unhook_entries name [] directives = refl
find-unhook_entries name ((k, e) ∷ entries) directives =
    find-unhook_entries name entries (unhook_found e directives (find e.key directives)).1
    ∙ ap (unhook_at name entries) (find-unhook_found name e directives (find e.key directives) refl)

unhook_at-Absent :
    (name : Bytes) (entries : Entries) (o : Option ZendIniEntry)
    → Absent name entries
    → unhook_at name entries o ≡ o
unfolding unhook_at
unhook_at-Absent name [] o h = refl
unhook_at-Absent name ((k, e) ∷ entries) o (q, h) =
    ap (unhook_at name entries) (unhook_one-same name e o q) ∙ unhook_at-Absent name entries o h

module _ (accepts : Handler → Bytes → Option Bytes → Bool) (cfg : ConfigIni) where
  abbrev hooked : IniEntry → ZendIniEntry → ZendIniEntry
  hooked e d = with_value accepts e.set d.on_modify e.key (with_handler accepts cfg e d)

  find-hook_found :
      (name : Bytes) (e : IniEntry) (directives : Directives) (o : Option ZendIniEntry)
      → find e.key directives ≡ o
      → equals e.key name ≡ false
      → find name (hook_found accepts cfg e directives o).1 ≡ find name directives
  unfolding hook_found
  find-hook_found name e directives none h q = refl
  find-hook_found name e directives (some d) h q =
      rw (find-put e.key name (hooked e d) directives, q)

  hooked_option : IniEntry → Option ZendIniEntry → Option ZendIniEntry
  hooked_option e none = none
  hooked_option e (some d) = some (hooked e d)

  find-hook_found_key :
      (e : IniEntry) (directives : Directives) (o : Option ZendIniEntry)
      → find e.key directives ≡ o
      → find e.key (hook_found accepts cfg e directives o).1 ≡ hooked_option e o
  unfolding hook_found hooked_option
  find-hook_found_key e directives none h = h
  find-hook_found_key e directives (some d) h =
      rw (find-put e.key e.key (hooked e d) directives, equals_refl e.key, h)

  find-hook_entries :
      (name : Bytes) (entries : Entries) (directives : Directives)
      → Absent name entries
      → find name (hook_entries accepts cfg entries directives).1 ≡ find name directives
  unfolding hook_entries
  find-hook_entries name [] directives h = refl
  find-hook_entries name ((k, e) ∷ entries) directives (q, h) =
      find-hook_entries name entries (hook_found accepts cfg e directives (find e.key directives)).1
        h
      ∙ find-hook_found name e directives (find e.key directives) refl q

  hook_found-key :
      (e : IniEntry) (directives : Directives) (o : Option ZendIniEntry)
      → (hook_found accepts cfg e directives o).0.key ≡ e.key
  unfolding hook_found
  hook_found-key e directives none = refl
  hook_found-key e directives (some d) = ground arith

  Absent-hook_entries :
      (name : Bytes) (entries : Entries) (directives : Directives)
      → Absent name entries
      → Absent name (hook_entries accepts cfg entries directives).0
  unfolding hook_entries
  Absent-hook_entries name [] directives h = tt
  Absent-hook_entries name ((k, e) ∷ entries) directives (q, h) = (
    rw (hook_found-key e directives (find e.key directives)) q,
    Absent-hook_entries name entries (hook_found accepts cfg e directives (find e.key directives)).1
        h,
  )

  -- Set and removed at its own setting, an entry leaves the handler that was there.
  unhook_one-hooked :
      (e : IniEntry) (directives : Directives) (o : Option ZendIniEntry)
      → IsFree o
      → handler (unhook_one e.key (hook_found accepts cfg e directives o).0 (hooked_option e o))
        ≡ handler o
  unfolding unhook_one hook_found hooked_option
  unhook_one-hooked e directives none f = refl
  unhook_one-hooked e directives (some d) f = ground (arith, equals_refl e.key)

  module _ (e : IniEntry) (entries : Entries) (directives : Directives)
      (a : Absent e.key entries) where
    abbrev first : IniEntry × Directives
    first = hook_found accepts cfg e directives (find e.key directives)

    abbrev others : Entries × Directives
    others = hook_entries accepts cfg entries first.1

    restored_here :
        IsFree (find e.key directives)
        → handler (unhook_at e.key others.0 (unhook_one e.key first.0 (find e.key others.1)))
          ≡ handler (find e.key directives)
    restored_here f =
        ap handler (unhook_at-Absent e.key others.0 _ (Absent-hook_entries e.key entries first.1 a))
        ∙ (ap (λ o. handler (unhook_one e.key first.0 o))
              (find-hook_entries e.key entries first.1 a
                ∙ find-hook_found_key e directives (find e.key directives) refl)
            ∙ unhook_one-hooked e directives (find e.key directives) f)

  handler-restored :
      (name : Bytes) (entries : Entries) (directives : Directives)
      → AreDistinct entries
      → IsFree (find name directives)
      → handler (
          unhook_at name
            (hook_entries accepts cfg entries directives).0
            (find name (hook_entries accepts cfg entries directives).1))
        ≡ handler (find name directives)
  unfolding unhook_at hook_entries
  handler-restored name [] directives d f = refl
  handler-restored name ((k, e) ∷ entries) directives (a, d) f =
      elim (Bool-cases (equals e.key name)) [
        | inl q ↦
            subst
              (λ n.
                IsFree (find n directives)
                → handler (
                    unhook_at n (others e entries directives a).0 (
                      unhook_one n (first e entries directives a).0
                        (find n (others e entries directives a).1)))
                  ≡ handler (find n directives))
              ((equals_iff e.key name).0 q) (restored_here e entries directives a) f
        | inr q ↦
            ap (λ o. handler (unhook_at name (others e entries directives a).0 o))
              (unhook_one-same name (first e entries directives a).0 _
                (rw (hook_found-key e directives (find e.key directives)) q))
            ∙ (handler-restored name entries (first e entries directives a).1 d
                  (rw (find-hook_found name e directives (find e.key directives) refl q) f)
                ∙ ap handler (find-hook_found name e directives (find e.key directives) refl q))
      ]

equals-sym : (a b : Bytes) → equals a b ≡ false → equals b a ≡ false
equals-sym a b h = ground (arith, equals_iff a b, equals_iff b a)

Absent-keyed :
    (e : IniEntry) (k : Bytes) (entries : Entries)
    → e.key ≡ k
    → All (λ y. equals k y.0 ≡ false) entries
    → AreKeyed entries
    → Absent e.key entries
Absent-keyed e k [] same h d = tt
Absent-keyed e k ((j, x) ∷ entries) same (q, h) (own, _, d) =
    (rw (same, own) (equals-sym k j q), Absent-keyed e k entries same h d)

AreDistinct-AreKeyed : (entries : Entries) → AreKeyed entries → AreDistinct entries
AreDistinct-AreKeyed [] h = tt
AreDistinct-AreKeyed ((k, e) ∷ entries) (same, fresh, h) =
    (Absent-keyed e k entries same fresh h, AreDistinct-AreKeyed entries h)

-- If no key stands twice among the entries, as `parse_ini_entry` keeps it, and no setting has the
-- handler of the extension, then the removal of the handlers behind their setting leaves every
-- setting with the handler that it had.
pub sp_unhook_ini-sp_hook_ini :
    (accepts : Handler → Bytes → Option Bytes → Bool) (cfg : ConfigIni) (directives : Directives)
    → AreKeyed cfg.entries
    → ((name : Bytes) → IsFree (find name directives))
    → (name : Bytes)
    → handler (find name (sp_unhook_ini (sp_hook_ini accepts cfg directives)).1)
      ≡ handler (find name directives)
unfolding sp_unhook_ini sp_hook_ini
sp_unhook_ini-sp_hook_ini accepts cfg directives keyed free name =
    ap handler (
      find-unhook_entries name (hook_entries accepts cfg cfg.entries directives).0
        (hook_entries accepts cfg cfg.entries directives).1)
    ∙ handler-restored accepts cfg name cfg.entries directives
        (AreDistinct-AreKeyed cfg.entries keyed) (free name)
