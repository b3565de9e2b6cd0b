-- ===== src/Execute/Handlers.antt =====
-- `hook_execute` and the compilers of src/sp_execute.c. A function pointer is an address, and 0 is
-- NULL.
use snuffleupagus.Base.{
  ℕ, ◌≡◌, ◌≢◌, arith, Bool, not, ◌&&◌, List, Option, ◌==◌, if◌then◌else◌, Bytes,
}
use snuffleupagus.Sloppy.{ZendOp, sp_sloppy_modify_opcode}

-- The pointers of PHP.
pub record Pointers : Type 0 where
  pub execute_ex : ℕ
  pub execute_internal : ℕ
  pub stream_open : ℕ
  pub compile_file : ℕ
  pub compile_string : ℕ

-- The pointers, and those that were saved.
pub record Engine : Type 0 where
  pub zend : Pointers
  pub orig : Pointers

abbrev hook_execute_ex : ℕ → Engine → Engine
hook_execute_ex sp e =
    if not (e.zend.execute_ex == sp)
    then record e {
      zend = record e.zend { execute_ex = sp };
      orig = record e.orig { execute_ex = e.zend.execute_ex };
    }
    else e

abbrev hook_execute_internal : ℕ → Engine → Engine
hook_execute_internal sp e =
    if not (e.zend.execute_internal == sp)
    then record e {
      zend = record e.zend { execute_internal = sp };
      orig = record e.orig { execute_internal = e.zend.execute_internal };
    }
    else e

abbrev hook_stream_open : ℕ → Engine → Engine
hook_stream_open sp e =
    if not (e.zend.stream_open == sp)
    then record e {
      zend = record e.zend { stream_open = sp };
      orig = record e.orig { stream_open = e.zend.stream_open };
    }
    else e

abbrev hook_compile_file : ℕ → Engine → Engine
hook_compile_file sp e =
    if e.orig.compile_file == 0 && not (e.zend.compile_file == sp)
    then record e {
      zend = record e.zend { compile_file = sp };
      orig = record e.orig { compile_file = e.zend.compile_file };
    }
    else e

abbrev hook_compile_string : ℕ → Engine → Engine
hook_compile_string sp e =
    if e.orig.compile_string == 0 && not (e.zend.compile_string == sp)
    then record e {
      zend = record e.zend { compile_string = sp };
      orig = record e.orig { compile_string = e.zend.compile_string };
    }
    else e

-- `sp` are the functions of the extension.
unfoldable pub hook_execute : Pointers → Engine → Engine
hook_execute sp e =
    let running =
      if e.orig.execute_ex == 0 && e.orig.stream_open == 0
      then hook_stream_open sp.stream_open
          (hook_execute_internal sp.execute_internal (hook_execute_ex sp.execute_ex e))
      else e in
    hook_compile_string sp.compile_string (hook_compile_file sp.compile_file running)

-- `compiled` is what the original compiler gives, which may be NULL.
unfoldable pub sp_compile_file : Bool → Option (List ZendOp) → Option (List ZendOp)
unfolding sp_sloppy_modify_opcode
sp_compile_file sloppy compiled = if sloppy then sp_sloppy_modify_opcode compiled else compiled

-- The source text that is kept, and the code; `compile` is the original compiler.
unfoldable pub sp_compile_string :
    Bool → (Bytes → Option (List ZendOp)) → Bytes → Bytes × Option (List ZendOp)
unfolding sp_sloppy_modify_opcode
sp_compile_string sloppy compile source_string = (
  source_string,
  if sloppy then sp_sloppy_modify_opcode (compile source_string) else compile source_string,
)

-- An engine of PHP in which nothing is saved: it has its functions, which are not the extension's;
-- only that for internal functions may be NULL.
pub record IsUnhooked (sp : Pointers) (e : Engine) : Type 0 where
  pub execute_ex : (e.zend.execute_ex ≢ 0) × (e.zend.execute_ex ≢ sp.execute_ex)
  pub execute_internal : e.zend.execute_internal ≢ sp.execute_internal
  pub stream_open : (e.zend.stream_open ≢ 0) × (e.zend.stream_open ≢ sp.stream_open)
  pub compile_file : (e.zend.compile_file ≢ 0) × (e.zend.compile_file ≢ sp.compile_file)
  pub compile_string : (e.zend.compile_string ≢ 0) × (e.zend.compile_string ≢ sp.compile_string)
  pub saved :
      (e.orig.execute_ex ≡ 0)
      × (e.orig.stream_open ≡ 0)
      × (e.orig.compile_file ≡ 0)
      × (e.orig.compile_string ≡ 0)

-- The first call puts the functions of the extension in the place of PHP's and saves all of these.
hook_execute-once :
    (sp : Pointers) (e : Engine)
    → IsUnhooked sp e
    → hook_execute sp e ≡ record { zend = sp; orig = e.zend }
unfolding hook_execute
hook_execute-once sp e u = ground arith

hook_execute-again :
    (sp : Pointers) (e : Engine)
    → IsUnhooked sp e
    → hook_execute sp (record { zend = sp; orig = e.zend }) ≡ record { zend = sp; orig = e.zend }
unfolding hook_execute
hook_execute-again sp e u = ground arith

-- In an engine of PHP where nothing is hooked, the functions of the extension take the place of PHP's
-- and all of these are saved, and a second call, at a reload, changes nothing: the extension is not
-- saved as the original of itself.
pub hook_execute_twice :
    (sp : Pointers) (e : Engine)
    → IsUnhooked sp e
    → (hook_execute sp e ≡ record { zend = sp; orig = e.zend })
      × (hook_execute sp (hook_execute sp e) ≡ hook_execute sp e)
hook_execute_twice sp e u =
    let once = hook_execute-once sp e u in (once, rw once (hook_execute-again sp e u))
