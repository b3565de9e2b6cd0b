-- ===== src/Lib.antt =====
-- Snuffleupagus is a PHP extension. At start it reads rules such as
-- `sp.disable_function.function("system").param("command").drop();` and keeps them in its globals; at run
-- time it hooks functions of PHP and looks the rules up. This library models the reading of the rules,
-- the state they fill, and the checks at run time.
--
-- The parts, and the files that model them (paths from the root of the repository):
--   * Base: bytes, Boolean tests, lists over native numbers, integers. A C string is the list of its
--     bytes before the NUL, a `zend_string` the list of all its bytes.
--   * SpList: src/sp_list.c, singly linked lists as lists. SpList/Sort has its theorem.
--   * Network: src/sp_network_utils.c. `inet_pton` is a parameter; an IPv6 address is four words.
--     Network/Bits and Network/Mask hold what is needed of masks, Network/Cidr the theorems.
--     Network/Written has `get_ip_str`, with `inet_ntop` as a parameter.
--   * Zval, SpTree: the PHP values and parsed variables, as far as they are looked at.
--   * Filter: src/sp_ifilter.c, with Filter/Encode and Filter/Variables.
--   * Log: `sp_log_msgf` of src/sp_utils.c and the macros of src/sp_utils.h. A run gives its messages and
--     a result, none where the request ends. An error that is no drop ends it or not by the medium: this is
--     the parameter `fatal_errors` of what logs errors at run time. The text of a message is left out.
--   * Scanner: `sp_config_scan` of src/sp_config_scanner.re, with the actions of its rules; Scanner/Lexer
--     has its regular expressions, Scanner/Condition the stacks of its conditions. Scanner/Precedence
--     says what an expression means, with Scanner/Precedence/Evaluate for the stacks and
--     Scanner/Conditions for its text, by the words of Scanner/Conditions/Words; Scanner/Bounds, Scanner/Progress and Scanner/Unterminated are
--     about the arrays, the end of a scan, and a rule with no semicolon.
--   * VarParser: src/sp_var_parser.c, with VarParser/Tokens for its tokens, VarParser/Ends and
--     VarParser/Names. VarValue:
--     src/sp_var_value.c, with VarValue/Paths.
--   * Config: the helpers of src/sp_config_scanner.re, and `sp_process_rule` and the argument parsers of
--     src/sp_config.c. A table of keywords is a list of names with handlers, a `retval` pointer is a pair
--     of a reader and a writer of the state.
--   * Globals: the globals of src/php_snuffleupagus.h and the types of src/sp_config.h.
--   * Keywords: the handlers of src/sp_config_keywords.c, a file for each kind of rule; FunctionTable and
--     Functions for `sp.disable_function` (with src/sp_config_utils.c), Root for the table of the root
--     in src/sp_config.c, with an invariant of the whole configuration in Root/Sound.
--   * Ini: src/sp_ini.c, the check of a new value, with Ini/Check; Ini/Hooks has the handler of a setting,
--     its setting and its removal, with Ini/Hooks/Restored.
--   * Frames: the stack of calls, and the chains of functions of src/sp_disabled_functions.c.
--   * Match: the comparison of values with a rule, of src/sp_utils.c.
--   * Disabled: the tests of one rule, Disabled/Rules the loops over the rules of
--     src/sp_disabled_functions.c, Disabled/Verdict what they decide, Disabled/Failing when a test ends
--     the request,
--     Disabled/Hooked what the hooks do in the place of a function;
--     Disabled/Eval the lists of `eval`, with a check of src/sp_execute.c.
--   * HashTable, Hooks: PHP's hash tables, and the hooks on functions of src/sp_utils.c with the tables
--     that keep the original handlers; Hooks/Restore has what the removal gives back. Hooks/Features sets
--     the hooks of every feature in the order of `sp_load_config` of src/snuffleupagus.c, with those of
--     src/sp_disabled_functions.c and src/sp_disable_xxe.c; Hooks/Features/Reload is about all of them
--     and Hooks/Features/Shutdown about their removal at the end.
--   * Load: `sp_load_config`, `sp_config_failed` and `sp_free_config` of src/snuffleupagus.c with
--     `sp_parse_config` of src/sp_config.c; Load/Reload is about loads one behind the other.
--   * Execute: src/sp_execute.c, the handler of every function. Execute/Depth runs it over a tree of
--     calls; Execute/Files has the checks of files, Execute/EvalName `get_eval_filename`,
--     Execute/Handlers the function pointers.
--   * Unserialize: src/sp_unserialize.c, with Unserialize/Authentic.
--   * Crypt: src/sp_crypt.c over the secret box of src/tweetnacl.c, with Crypt/RoundTrip.
--   * Cookies: src/sp_cookie_encryption.c, with Cookies/Protection. Session: src/sp_session.c, with
--     Session/Stored; Session/Module has the replacement of the module of the sessions, over a memory of
--     such modules, and Session/Module/Selected what is in use behind any events.
--   * Lifecycle: the setting of the configuration file and the start of a request, of
--     src/snuffleupagus.c, with Lifecycle/Admission. Dump: `dump_config` of src/snuffleupagus.c, with Dump/Rules and Dump/Secret.
--   * Wrapper: src/sp_wrapper.c, with Wrapper/Allowed.
--   * Sloppy: src/sp_sloppy.c, with Sloppy/Strict. HardenRand: src/sp_harden_rand.c.
--   * Upload: src/sp_upload_validation.c.
--   * Tests: runs, and the theorems at concrete inputs.
--
-- Where the source has branches for versions of PHP, those for PHP 8.3 and 8.4 are modelled. A loop is
-- recursion on a list or a tree, with two exceptions that take fuel: the scan of a text, which takes a
-- byte at least at each step, has the length of the memory and one; the parsing of a variable, which calls
-- itself for an index that is shorter than the variable, has the length of the line and one. A field that
-- the source narrows is taken modulo its width (`parse_uint`, `parse_int`), and so are sizes and counters
-- of 64 bits.
--
-- Not modelled: `strtol`, `strtoimax`, `strtoul`, `atoi`, `atol`, `inet_pton`, `spprintf`, PCRE, `fopen`,
-- `access`, `stat`, `glob`, `getenv`, `fork` with `execve`, `zend_error`, SHA-256, base64, the secret box,
-- `random_int`, the functions of PHP that are hooked, its symbol tables, objects and constants, and the
-- hash of a file are parameters. The rules take `sp_parse_var` and `sp_get_var_value` as parameters, so
-- that their theorems hold for any. The registration with PHP and the initial globals in src/snuffleupagus.c are
-- not modelled, and of the dump of the configuration not its printing. Memory management, the
-- text of messages, the numbers of lines and the dump of requests are left out. src/tweetnacl.c is another
-- project's.
pub mod Base
pub mod SpList
pub mod Network
pub mod Zval
pub mod SpTree
pub mod Log
pub mod Config
pub mod Crypt
pub mod Cookies
pub mod Upload
pub mod VarParser
pub mod VarValue
pub mod Wrapper
pub mod Sloppy
pub mod Unserialize
pub mod HardenRand
pub mod Execute
pub mod Scanner
pub mod Session
pub mod Globals
pub mod HashTable
pub mod Hooks
pub mod Load
pub mod Keywords
pub mod Ini
pub mod Frames
pub mod Match
pub mod Disabled
pub mod Dump
pub mod Lifecycle
pub mod Filter
pub mod Tests
