-- ===== src/Log.antt =====
-- src/sp_utils.h and `sp_log_msgf` of src/sp_utils.c: log messages, and runs that a message may end.
-- The text of a message is left out: a message is its feature, its level and its type.
use Prim.Native.String.{String}
use snuffleupagus.Base.{
  Bool, true, false, ◌&&◌, ◌||◌, not, List, [], ◌∷◌, ◌++◌, Option, none, some, ◌≡◌, refl, arith,
  Bytes, if◌then◌else◌,
}

pub data Level : Type 0 where
  notice warning error : Level

-- SP_TYPE_LOG, SP_TYPE_DROP and SP_TYPE_SIMULATION.
pub data LogType : Type 0 where
  log drop simulation : LogType

pub record Message : Type 0 where
  pub feature : String
  pub level : Level
  pub kind : LogType

-- The messages of a run in order, and its result; `none` is `zend_bailout`, which does not return.
abbrev pub Run {ℓ} : Type ℓ → Type ℓ
Run A = List Message × Option A

infixl 5 ◌>>=◌ ◌>>◌
abbrev pub ◌>>=◌ {ℓ κ} : {A : Type ℓ} {B : Type κ} → Run A → (A → Run B) → Run B
m >>= f = elim (m.1) [ none ↦ (m.0, none) | some a ↦ (m.0 ++ (f a).0, (f a).1) ]

abbrev pub ◌>>◌ {ℓ} : {B : Type ℓ} → Run (Unit {0}) → Run B → Run B
m >> k = m >>= λ _. k

abbrev pub pure {ℓ} : {A : Type ℓ} → A → Run A
pure a = ([], some a)

-- A run that returns goes on with its result.
pub bind_returns {ℓ κ} :
    {A : Type ℓ} {B : Type κ} (m : Run A) (f : A → Run B) (a : A)
    → m.1 ≡ some a
    → (m >>= f).1 ≡ (f a).1
bind_returns m f a e = rw (e, ◌>>=◌)

-- A run that returns has returned from its first part.
returned {ℓ κ} :
    {A : Type ℓ} {B : Type κ} (o : Option A) (m : List Message) (f : A → Run B) (b : B)
    → ((m, o) >>= f).1 ≡ some b
    → (a : A) × (o ≡ some a) × ((f a).1 ≡ some b)
returned none m f b h = cc
returned (some a) m f b h = (a, refl, h)

pub bind_returned {ℓ κ} :
    {A : Type ℓ} {B : Type κ} (m : Run A) (f : A → Run B) (b : B)
    → (m >>= f).1 ≡ some b
    → (a : A) × (m.1 ≡ some a) × ((f a).1 ≡ some b)
bind_returned m f b h = returned m.1 m.0 f b h

abbrev pub returns : LogType → Option (Unit {0})
returns LogType.drop = none
returns _ = some tt

-- `sp_log_msgf` as its callers see it, for a message that is a drop or is below an error.
-- (`sp_log_msgf-returns` below is the reason.)
abbrev pub log_msg : String → Level → LogType → Run (Unit {0})
log_msg feature level kind =
    (record { feature = feature; level = level; kind = kind } ∷ [], returns kind)

abbrev pub sp_log_drop : String → Run (Unit {0})
sp_log_drop feature = log_msg feature Level.error LogType.drop

abbrev pub sp_log_simulation : String → Run (Unit {0})
sp_log_simulation feature = log_msg feature Level.warning LogType.simulation

abbrev pub sp_log_auto : String → Bool → Run (Unit {0})
sp_log_auto feature is_simulation =
    log_msg feature (if is_simulation then Level.warning else Level.error)
      (if is_simulation then LogType.simulation else LogType.drop)

abbrev pub sp_log_warn : String → Run (Unit {0})
sp_log_warn feature = log_msg feature Level.warning LogType.log

-- An error that is no drop. The Boolean says whether errors are fatal (`is_fatal` below): then
-- `zend_error` ends the request, as it does at run time with the default medium.
abbrev pub sp_log_err : Bool → String → Run (Unit {0})
sp_log_err fatal_errors feature = (
  record { feature = feature; level = Level.error; kind = LogType.log } ∷ [],
  if fatal_errors then none else some tt,
)

-- Where messages go.
pub data MediaType : Type 0 where
  log_zend log_syslog log_file : MediaType

-- `sp_config_log`.
pub record LogMedia : Type 0 where
  pub type : MediaType
  pub path : Option Bytes

pub data Priority : Type 0 where
  log_err log_info : Priority

-- What a message becomes.
pub data Output : Type 0 where
  to_syslog : Priority → Message → Output
  to_file : Bytes → Message → Output
  to_zend : Level → Message → Output
  not_opened : Level → Output

pub record LogState : Type 0 where
  pub media : LogMedia
  pub nonfatal : Bool

abbrev is_error : Level → Bool
is_error Level.error = true
is_error _ = false

abbrev zend_level : LogState → Level → Level
zend_level s level = if s.nonfatal && is_error level then Level.warning else level

-- `fatal` says whether `zend_error` at a level ends the request; `opens` whether a file can be opened.
module _ (fatal : Level → Bool) (opens : Bytes → Bool) where
  abbrev zend_error : Level → Output → Output × Option (Unit {0})
  zend_error level out = (out, if fatal level then none else some tt)

  -- `fopen` of no path opens nothing.
  abbrev to_path : Option Bytes → LogState → Message → Output × Option (Unit {0})
  to_path none s m = zend_error (zend_level s m.level) (Output.not_opened (zend_level s m.level))
  to_path (some path) s m =
      if opens path
      then (Output.to_file path m, some tt)
      else zend_error (zend_level s m.level) (Output.not_opened (zend_level s m.level))

  write : MediaType → LogState → Message → Output × Option (Unit {0})
  write MediaType.log_syslog s m = (
    Output.to_syslog (if is_error m.level then Priority.log_err else Priority.log_info) m,
    some tt,
  )
  write MediaType.log_file s m = to_path s.media.path s m
  write MediaType.log_zend s m =
      zend_error (zend_level s m.level) (Output.to_zend (zend_level s m.level) m)

  abbrev bail : LogType → Option (Unit {0}) → Option (Unit {0})
  bail kind none = none
  bail LogType.drop (some _) = none
  bail _ (some _) = some tt

  unfoldable pub sp_log_msgf : LogState → Message → Output × Option (Unit {0})
  unfolding write
  sp_log_msgf s m = ((write s.media.type s m).0, bail m.kind (write s.media.type s m).1)

  abbrev unopened : Option Bytes → Bool
  unopened none = true
  unopened (some path) = not (opens path)

  -- Whether an error reaches `zend_error`, by the medium.
  abbrev reaches_zend : LogMedia → MediaType → Bool
  reaches_zend media MediaType.log_syslog = false
  reaches_zend media MediaType.log_file = unopened media.path
  reaches_zend media MediaType.log_zend = true

  -- Does a message at the level of an error end the request?
  unfoldable pub is_fatal : LogState → Bool
  is_fatal s = reaches_zend s.media s.media.type && fatal (zend_level s Level.error)

-- A drop never returns to its caller, whatever the medium and whatever `zend_error` does.
pub sp_log_msgf-drop :
    (fatal : Level → Bool) (opens : Bytes → Bool) (s : LogState) (m : Message)
    → m.kind ≡ LogType.drop
    → (sp_log_msgf fatal opens s m).1 ≡ none
unfolding sp_log_msgf
sp_log_msgf-drop fatal opens s m h = ground arith

-- Where `zend_error` returns below the level of an error, a message returns to its caller exactly
-- when it is no drop, if it is below an error too or errors are being made warnings.
pub sp_log_msgf-returns :
    (fatal : Level → Bool) (opens : Bytes → Bool) (s : LogState) (m : Message)
    → fatal Level.notice ≡ false
    → fatal Level.warning ≡ false
    → (s.nonfatal || not (is_error m.level)) ≡ true
    → (sp_log_msgf fatal opens s m).1 ≡ returns m.kind
unfolding sp_log_msgf
sp_log_msgf-returns fatal opens s m n w h = ground arith

error-outcome :
    (fatal : Level → Bool) (opens : Bytes → Bool) (type : MediaType) (path : Option Bytes)
    (nonfatal : Bool) (feature : String)
    → (sp_log_msgf fatal opens
        (record { media = record { type = type; path = path }; nonfatal = nonfatal })
        (record { feature = feature; level = Level.error; kind = LogType.log })).1
      ≡ (sp_log_err
          (is_fatal fatal opens
            (record { media = record { type = type; path = path }; nonfatal = nonfatal }))
          feature).1
unfolding sp_log_msgf is_fatal
error-outcome fatal opens MediaType.log_syslog path nonfatal feature = refl
error-outcome fatal opens MediaType.log_zend path nonfatal feature = ground arith
error-outcome fatal opens MediaType.log_file none nonfatal feature = ground arith
error-outcome fatal opens MediaType.log_file (some path) nonfatal feature = ground arith

-- An error that is no drop returns to its caller exactly where errors are not fatal.
pub sp_log_msgf-sp_log_err :
    (fatal : Level → Bool) (opens : Bytes → Bool) (s : LogState) (feature : String)
    → (sp_log_msgf fatal opens s
        (record { feature = feature; level = Level.error; kind = LogType.log })).1
      ≡ (sp_log_err (is_fatal fatal opens s) feature).1
sp_log_msgf-sp_log_err fatal opens s feature =
    error-outcome fatal opens s.media.type s.media.path s.nonfatal feature
