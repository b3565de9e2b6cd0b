-- ===== src/Upload.antt =====
-- src/sp_upload_validation.c: a script decides on each uploaded file. The script's run is a parameter:
-- `fork`, `execve` and `waitpid` give its exit status, which is 1 if the script cannot be called.
use snuffleupagus.Base.{
  ℕ, ◌≡◌, ◌⊎◌, Bool, false, ◌&&◌, not, List, [], ◌∷◌, ◌++◌, Option, none, some, Bytes, codes, ◌==◌,
  if◌then◌else◌,
}
use snuffleupagus.Globals.{ConfigUploadValidation}
use snuffleupagus.Log.{Run, ◌>>◌, pure, sp_log_auto, sp_log_err}

-- An entry of `$_FILES`.
pub record UploadedFile : Type 0 where
  pub name : Bytes
  pub tmp_name : Bytes
  pub size : ℕ

-- What the request gives: REMOTE_ADDR, the running file, and "%zu" of `spprintf`;
-- and whether `sp_log_err` ends the request.
pub record Request : Type 0 where
  pub remote_addr : Option Bytes
  pub executed_filename : Bytes
  pub size_text : ℕ → Bytes
  pub fatal_errors : Bool

abbrev text_or_empty : Option Bytes → Bytes
text_or_empty none = []
text_or_empty (some s) = s

-- `env` of the script.
unfoldable pub environment : Request → UploadedFile → List Bytes
environment req f =
    (codes "SP_FILENAME=" ++ f.name)
    ∷ (codes "SP_REMOTE_ADDR=" ++ text_or_empty req.remote_addr)
    ∷ (codes "SP_CURRENT_FILE=" ++ req.executed_filename)
    ∷ (codes "SP_FILESIZE=" ++ req.size_text f.size)
    ∷ []

-- `run` gets the script, its argument and its environment; none is a `fork` that failed.
module _ (run : Option Bytes → Bytes → List Bytes → Option ℕ) (req : Request)
    (cfg : ConfigUploadValidation) where
  unfoldable pub status : UploadedFile → Option ℕ
  unfolding environment
  status f = run cfg.script f.tmp_name (environment req f)

  -- What follows for a file; one whose check cannot be started is an error, and passed over where that
  -- returns.
  abbrev on_status : Option ℕ → Run (Unit {0})
  on_status none = sp_log_err req.fatal_errors "upload_validation"
  on_status (some n) =
      if not (n == 0) then sp_log_auto "upload_validation" cfg.simulation else pure tt

  unfoldable pub check_files : List UploadedFile → Run (Unit {0})
  unfolding status
  check_files [] = pure tt
  check_files (f ∷ files) = do on_status (status f); check_files files

  -- `at_end` says that the event is MULTIPART_EVENT_END, and `orig` is the result of the callback
  -- before, SUCCESS where there is none.
  unfoldable pub sp_rfc1867_callback : Bool → Bool → List UploadedFile → Run Bool
  unfolding check_files
  sp_rfc1867_callback at_end orig files =
      if at_end && cfg.enable then (do check_files files; pure orig) else pure orig

  -- The script accepts a file, or could not be started where errors are not fatal.
  abbrev pub IsPassed : UploadedFile → Type 0
  IsPassed f = ((req.fatal_errors ≡ false) × (status f ≡ none)) ⊎ (status f ≡ some 0)

  abbrev pub ArePassed : List UploadedFile → Type 0
  ArePassed [] = Unit
  ArePassed (f ∷ files) = IsPassed f × ArePassed files

-- `php_rfc1867_callback` and `sp_rfc1867_orig_callback` by their addresses; 0 is NULL.
pub record Callbacks : Type 0 where
  pub callback : ℕ
  pub orig : ℕ

unfoldable pub hook_upload : ℕ → Callbacks → Callbacks
hook_upload ours c =
    if c.callback == ours
    then c
    else if c.orig == 0
    then record c { orig = c.callback; callback = ours }
    else c
