-- ===== src/Config/Preserve.antt =====
-- What every handler of a table keeps, the dispatch of a rule over the table keeps.
use snuffleupagus.Base.{
  c_string, ℕ, Bool, true, false, not, List, [], ◌∷◌, Option, none, some, ℤ, inl, inr, Bool-cases,
  Bytes, equals, All, if◌then◌else◌, is_set, ◌==◌,
}
use snuffleupagus.Config.{
  ArgType, SpParsedKeyword, sp_get_arg_string, arg_length, Status, ZendResult, Handler, Table,
  find_handler, after, sp_process_rule, parse_empty, parse_str, parse_list, parse_uint, parse_ulong,
  add_pieces,
}

module _ {S : Type 0} (P : S → Type 0) where
  abbrev pub Keeps : Handler S → Type 0
  Keeps func =
      (k : SpParsedKeyword) (rule : List SpParsedKeyword) (s : S) → P s → P (func k rule s).1

  abbrev pub TableKeeps : Table S → Type 0
  TableKeeps table = All (λ entry. Keeps entry.1) table

  IsKept : (func : Option (Handler S)) → Type 0
  IsKept none = Unit
  IsKept (some func) = Keeps func

  find_handler-IsKept :
      (kw : Bytes) (table : Table S) → TableKeeps table → IsKept (find_handler kw table)
  unfolding find_handler IsKept
  find_handler-IsKept kw [] h = tt
  find_handler-IsKept kw ((token, func) ∷ table) (p, h) = elim (Bool-cases (equals kw token)) [
    | inl e ↦ rw e p
    | inr e ↦ rw e (find_handler-IsKept kw table h)
  ]

  after-Keeps :
      (r : Status × S) (rest : S → ZendResult × S)
      → P r.1
      → ((s : S) → P s → P (rest s).1)
      → P (after r rest).1
  unfolding after
  after-Keeps (Status.success, s) rest p h = h s p
  after-Keeps (Status.error, s) rest p h = p
  after-Keeps (Status.stop, s) rest p h = p

  dispatch :
      (func : Option (Handler S)) (k : SpParsedKeyword) (rule : List SpParsedKeyword) (s : S)
      (rest : S → ZendResult × S)
      → IsKept func
      → P s
      → ((s : S) → P s → P (rest s).1)
      → P
          (elim func as (λ o. ZendResult × S) [
            | none ↦ (ZendResult.failed, s)
            | some func ↦ after (func k rule s) rest
          ]).1
  unfolding IsKept
  dispatch none k rule s rest h p q = p
  dispatch (some func) k rule s rest h p q = after-Keeps (func k rule s) rest (h k rule s p) q

  -- The dispatch keeps what every handler keeps.
  pub sp_process_rule-Keeps :
      (table : Table S) (rule : List SpParsedKeyword) (s : S)
      → TableKeeps table
      → P s
      → P (sp_process_rule table rule s).1
  unfolding sp_process_rule
  sp_process_rule-Keeps table [] s h p = p
  sp_process_rule-Keeps table (k ∷ rule) s h p =
      dispatch (find_handler k.kw table) k rule s (λ t. sp_process_rule table rule t)
        (find_handler-IsKept k.kw table h) p (λ t q. sp_process_rule-Keeps table rule t h q)

  pub if-Keeps : {A : Type 0} (b : Bool) (x y : A × S) → P x.1 → P y.1 → P (if b then x else y).1
  if-Keeps true x y p q = p
  if-Keeps false x y p q = q

  pub arg-Keeps :
      (arg : Option Bytes) (s : S) (f : Bytes → Status × S)
      → P s
      → ((v : Bytes) → P (f v).1)
      → P (elim arg as (λ o. Status × S) [ none ↦ (Status.error, s) | some value ↦ f value ]).1
  arg-Keeps none s f p q = p
  arg-Keeps (some v) s f p q = q v

  empty-Keeps :
      (t : ArgType) (s u : S)
      → P s
      → P u
      → P
          (elim t as (λ t. Status × S) [
            | ArgType.empty ↦ (Status.success, u)
            | _ ↦ (Status.error, s)
          ]).1
  empty-Keeps ArgType.empty s u p q = q
  empty-Keeps ArgType.unknown s u p q = p
  empty-Keeps ArgType.no_parens s u p q = p
  empty-Keeps ArgType.str s u p q = p

  pub parse_empty-Keeps :
      (write : S → S) → ((s : S) → P s → P (write s)) → Keeps (parse_empty write)
  unfolding parse_empty
  parse_empty-Keeps write h k rule s p =
      if-Keeps (not (arg_length k.arg == 0)) _ _ p (empty-Keeps k.argtype s (write s) p (h s p))

  pub parse_str-Keeps :
      (read : S → Option Bytes) (write : Option Bytes → S → S)
      → ((v : Option Bytes) (s : S) → P s → P (write v s))
      → Keeps (parse_str read write)
  unfolding parse_str
  parse_str-Keeps read write h k rule s p = if-Keeps (is_set (read s)) _ _ p (
      arg-Keeps (sp_get_arg_string k) s (λ v. (Status.success, write (some v) s)) p
        (λ v. h (some v) s p))

  pub parse_list-Keeps :
      (read : S → List Bytes) (write : List Bytes → S → S)
      → ((v : List Bytes) (s : S) → P s → P (write v s))
      → Keeps (parse_list read write)
  unfolding parse_list
  parse_list-Keeps read write h k rule s p =
      if-Keeps _ _ _ p
        (arg-Keeps (sp_get_arg_string k) s _ p (λ v. h (add_pieces (read s) [] (c_string v)) s p))

  pub parse_uint-Keeps :
      (strtoimax : Bytes → ℤ × Bool) (strtoul : Bytes → ℕ × Bool) (write : ℕ → S → S)
      → ((v : ℕ) (s : S) → P s → P (write v s))
      → Keeps (parse_uint strtoimax strtoul write)
  unfolding parse_uint
  parse_uint-Keeps strtoimax strtoul write h k rule s p =
      arg-Keeps (sp_get_arg_string k) s _ p (λ v. h _ s p)

  pub parse_ulong-Keeps :
      (strtoimax : Bytes → ℤ × Bool) (strtoul : Bytes → ℕ × Bool) (write : ℕ → S → S)
      → ((v : ℕ) (s : S) → P s → P (write v s))
      → Keeps (parse_ulong strtoimax strtoul write)
  unfolding parse_ulong
  parse_ulong-Keeps strtoimax strtoul write h k rule s p =
      arg-Keeps (sp_get_arg_string k) s _ p (λ v. h _ s p)
