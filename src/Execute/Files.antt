-- ===== src/Execute/Files.antt =====
-- The check of the files that are executed: `terminate_if_writable`, and `sp_stream_open_checks` on
-- what `include` and its like open.
use snuffleupagus.Base.{
  ℕ, ◌≡◌, ◌≢◌, ◌↔◌, ◌⊎◌, arith, Bool, true, false, not, ◌||◌, List, [], ◌∷◌, Option, none, some,
  Bytes, codes, starts_with, if◌then◌else◌,
}
use snuffleupagus.Disabled.{Request}
use snuffleupagus.Execute.{
  FileSystem, WriteAccess, ExecConfig, unless_writable, unless_owned, terminate_if_writable,
  is_builtin_matching,
}
use snuffleupagus.Frames.{Frame}
use snuffleupagus.Globals.{ConfigReadonlyExec, DisabledTable}
use snuffleupagus.Log.{Run, ◌>>◌, pure}

-- A file or a directory is the running user's, or he may not write it.
abbrev pub IsOwned : FileSystem → Bytes → Type 0
IsOwned fs path = fs.owner path ≡ some fs.geteuid

-- An owner that is known, and not the running user.
abbrev pub IsAnother : ℕ → Option ℕ → Type 0
IsAnother euid none = ⊥
IsAnother euid (some uid) = uid ≢ euid

-- The user may write the file, or with extended checks he owns it, or he may write or owns the
-- directory of a file of another user.
abbrev pub IsExposed : FileSystem → Bool → Bytes → Type 0
IsExposed fs extended file =
    (fs.access file ≡ WriteAccess.writable)
    ⊎ ((extended ≡ true)
        × (fs.access file ≡ WriteAccess.refused)
        × (IsOwned fs file
            ⊎ (IsAnother fs.geteuid (fs.owner file)
                × ((fs.access (fs.dirname file) ≡ WriteAccess.writable)
                    ⊎ ((fs.access (fs.dirname file) ≡ WriteAccess.refused)
                        × IsOwned fs (fs.dirname file))))))

-- One of the checks fails for another reason, all before it being passed: the access of the file, or
-- with extended checks its owner, or the access or the owner of its directory.
abbrev pub IsUnknown : FileSystem → Bool → Bytes → Type 0
IsUnknown fs extended file =
    (fs.access file ≡ WriteAccess.failed)
    ⊎ ((extended ≡ true)
        × (fs.access file ≡ WriteAccess.refused)
        × ((fs.owner file ≡ none)
            ⊎ (IsAnother fs.geteuid (fs.owner file)
                × ((fs.access (fs.dirname file) ≡ WriteAccess.failed)
                    ⊎ ((fs.access (fs.dirname file) ≡ WriteAccess.refused)
                        × (fs.owner (fs.dirname file) ≡ none))))))

-- A check of which `bad` or `unknown` ends the request.
abbrev Ends : Bool → Type 0 → Type 0 → Run (Unit {0}) → Type 0
Ends fatal_errors bad unknown run = (run.1 ≡ none) ↔ (bad ⊎ ((fatal_errors ≡ true) × unknown))

exposed :
    (fatal_errors : Bool) (cfg : ConfigReadonlyExec) (extended : Bool) (file dir : WriteAccess)
    (euid : ℕ) (o p : Option ℕ)
    → cfg.simulation ≡ false
    → Ends fatal_errors
        ((file ≡ WriteAccess.writable)
          ⊎ ((extended ≡ true)
              × (file ≡ WriteAccess.refused)
              × ((o ≡ some euid)
                  ⊎ (IsAnother euid o
                      × ((dir ≡ WriteAccess.writable)
                          ⊎ ((dir ≡ WriteAccess.refused) × (p ≡ some euid)))))))
        ((file ≡ WriteAccess.failed)
          ⊎ ((extended ≡ true)
              × (file ≡ WriteAccess.refused)
              × ((o ≡ none)
                  ⊎ (IsAnother euid o
                      × ((dir ≡ WriteAccess.failed)
                          ⊎ ((dir ≡ WriteAccess.refused) × (p ≡ none)))))))
        (unless_writable fatal_errors cfg file (
          if not extended
          then pure tt
          else unless_owned fatal_errors cfg euid o (
              unless_writable fatal_errors cfg dir
                (unless_owned fatal_errors cfg euid p (pure tt)))))
exposed e cfg extended WriteAccess.writable dir euid o p h = ground arith
exposed e cfg extended WriteAccess.failed dir euid o p h = ground arith
exposed e cfg false WriteAccess.refused dir euid o p h = ground arith
exposed e cfg true WriteAccess.refused dir euid none p h = ground arith
exposed e cfg true WriteAccess.refused WriteAccess.writable euid (some u) p h = ground arith
exposed e cfg true WriteAccess.refused WriteAccess.failed euid (some u) p h = ground arith
exposed e cfg true WriteAccess.refused WriteAccess.refused euid (some u) none h = ground arith
exposed e cfg true WriteAccess.refused WriteAccess.refused euid (some u) (some v) h = ground arith

-- In enforcement the check ends the request exactly if the running user may change the file, or a
-- check fails for another reason and errors are fatal. He may change it if he may write it, or, with
-- extended checks, owns it, or may write or owns the directory of a file that is another's.
pub terminate_if_writable-IsExposed :
    (fatal_errors : Bool) (fs : FileSystem) (cfg : ConfigReadonlyExec) (file : Bytes)
    → cfg.simulation ≡ false
    → ((terminate_if_writable fatal_errors fs cfg file).1 ≡ none) ↔ (
        IsExposed fs cfg.extended_checks file
        ⊎ ((fatal_errors ≡ true) × IsUnknown fs cfg.extended_checks file))
unfolding terminate_if_writable
terminate_if_writable-IsExposed fatal_errors fs cfg file h =
    exposed fatal_errors cfg cfg.extended_checks (fs.access file) (fs.access (fs.dirname file))
      fs.geteuid (fs.owner file) (fs.owner (fs.dirname file)) h

-- ZEND_INCLUDE and its like, as the opcode of the running instruction has them.
pub data Inclusion : Type 0 where
  include require require_once include_once : Inclusion

abbrev inclusion_name : Inclusion → Bytes
inclusion_name Inclusion.include = codes "include"
inclusion_name Inclusion.require = codes "require"
inclusion_name Inclusion.require_once = codes "require_once"
inclusion_name Inclusion.include_once = codes "include_once"

-- `php_memnstr` over a text.
unfoldable pub php_memnstr : Bytes → Bytes → Bool
unfolding starts_with
php_memnstr needle [] = starts_with needle []
php_memnstr needle (c ∷ s) = starts_with needle (c ∷ s) || php_memnstr needle s

module _ (req : Request) (fs : FileSystem) (cfg : ExecConfig) where
  -- The check of the file that is opened: that of a `file://` path is skipped.
  unfoldable pub check_opened : Bytes → Run (Unit {0})
  unfolding php_memnstr terminate_if_writable
  check_opened filename =
      if starts_with (codes "file://") filename
      then pure tt
      else if not (php_memnstr (codes "://") filename)
      then terminate_if_writable req.fatal_errors fs cfg.globals.readonly_exec filename
      else pure tt

  -- `hooked` is the table `disabled_functions_hooked`; the opcode is `none` if the running
  -- function is not in PHP code, has no instruction, or another one.
  unfoldable pub sp_stream_open_checks :
      List Frame → DisabledTable → Bytes → Option Inclusion → Bytes → Run (Unit {0})
  unfolding check_opened is_builtin_matching
  sp_stream_open_checks frames hooked executed none filename = pure tt
  sp_stream_open_checks frames hooked executed (some kind) filename = do
    if cfg.globals.readonly_exec.enable then check_opened filename else pure tt
    is_builtin_matching req fs cfg frames (inclusion_name kind) filename hooked executed
