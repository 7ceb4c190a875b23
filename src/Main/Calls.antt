-- ===== src/Main/Calls.antt =====
-- main.go: what `main` does to the outside, as calls, and what comes back. The environment is the
-- one after `godotenv.Load`. A call of `logger.Fatal` ends the process, and that is the error here.
use gopherci.Common.{
  ℕ, zero, suc, nat_eq, ◌+◌, ◌-◌, ◌*◌, ◌^◌, List, [], ◌∷◌, ◌++◌, Option, none, some, Bytes, ok, err,
  ℤ, pos, negsuc, Go, ask, pure, Error, message, error_text, if◌then◌else◌, ◌&&◌, ◌==◌, bytes_eq,
  leb, ltb,
}

pub data Level : Type 0 where
  debug_level info_level error_level fatal_level : Level

pub data Direction : Type 0 where
  up down : Direction

-- The analyser that was made; `docker` has an image.
pub data Chosen : Type 0 where
  filesystem : (path : Bytes) → (memory_limit : ℤ) → Chosen
  docker : (image : Bytes) → (memory_limit : ℤ) → Chosen

-- `new_logger` is `logger.New`. `log` has what `With("error", err)` adds, if anything. `route` is `r.Post`, `r.Get` or
-- `r.NotFound`, `start_queue` the `Wait` of a queue.
pub data MainCall : Type 0 where
  new_logger : (environment dsn : Bytes) → MainCall
  log : Level → Option Error → Bytes → MainCall
  start_signal_handler : MainCall
  open_db : (driver dsn : Bytes) → MainCall
  exec_migrations : (driver : Bytes) → Direction → (max : ℕ) → MainCall
  new_sql_db : (driver : Bytes) → MainCall
  start_cleanup : MainCall
  new_analyser : Chosen → MainCall
  read_file : Bytes → MainCall
  new_github : Chosen → (integration_id : ℤ) → (key secret base_url : Bytes) → MainCall
  route : (method pattern : Bytes) → MainCall
  new_memory_queue : MainCall
  new_pubsub_queue : (project_id topic : Bytes) → MainCall
  start_queue : MainCall
  new_web : MainCall
  listen : MainCall
  cancel : MainCall
  wait : MainCall

-- How `ListenAndServe` returns: with `http.ErrServerClosed`, or with another error or none.
pub data Served : Type 0 where
  server_closed : Served
  returned : Option Error → Served

-- The process's environment and arguments, the build that is linked in, and what the outside answers after the calls so far;
-- `fails` is the error of a call that has one. `quoted` is `%q`, `int_error` the error of strconv.
pub record Host : Type 0 where
  pub getenv : Bytes → Bytes
  pub args : List Bytes
  pub build : Bytes
  pub quoted : Bytes → Bytes
  pub int_error : Bytes → Error
  pub fails : List MainCall → MainCall → Option Error
  pub applied : List MainCall → ℕ
  pub read_file : List MainCall → Bytes × Option Error
  pub served : List MainCall → Served

-- The digits of a number in base 10, most significant first, after those read so far.
unfoldable pub digits_from : ℕ → Bytes → Option ℕ
digits_from acc [] = some acc
digits_from acc (c ∷ s) =
    let rest = digits_from (acc * 10 + (c - b'0')) s in
    if leb b'0' c && leb c b'9' then rest else none

abbrev magnitude : Bytes → Option ℕ
magnitude [] = none
magnitude (c ∷ s) = digits_from 0 (c ∷ s)

-- -(2 ^ (bits - 1)) is in the range, 2 ^ (bits - 1) is not.
abbrev negative : (bits : ℕ) → Option ℕ → Option ℤ
negative bits none = none
negative bits (some zero) = some (pos 0)
negative bits (some (suc n)) = if ltb n (2 ^ (bits - 1)) then some (negsuc n) else none

abbrev positive : (bits : ℕ) → Option ℕ → Option ℤ
positive bits none = none
positive bits (some n) = if ltb n (2 ^ (bits - 1)) then some (pos n) else none

-- `strconv.ParseInt(s, 10, bits)` of the standard library
unfoldable pub parse_int : (bits : ℕ) → Bytes → Option ℤ
unfolding digits_from
parse_int bits [] = none
parse_int bits (c ∷ s) =
    if c == b'-'
    then negative bits (magnitude s)
    else if c == b'+'
    then positive bits (magnitude s)
    else positive bits (digits_from 0 (c ∷ s))

-- A call that gives nothing back.
abbrev pub run : MainCall → Go MainCall (Unit {0})
run c = ask c (λ h. ok tt)

abbrev pub inform : Bytes → Go MainCall (Unit {0})
inform text = run (log info_level none text)

-- `logger.With("error", err).Fatal(text)`, or without an `err`.
abbrev pub fatal_with : {A : Type 0} → Option Error → Bytes → Go MainCall A
fatal_with e text h = (err (message text), log fatal_level e text ∷ h)

abbrev pub fatal : {A : Type 0} → Bytes → Go MainCall A
fatal text = fatal_with none text

-- `if err != nil { logger.With("error", err).Fatal(text) }`
abbrev pub or_fatal_with : Bytes → Option Error → Go MainCall (Unit {0})
or_fatal_with text none = pure tt
or_fatal_with text (some e) = fatal_with (some e) text

-- `if err != nil { logger.Fatal(text, err) }`
abbrev pub or_fatal : Bytes → Option Error → Go MainCall (Unit {0})
or_fatal text none = pure tt
or_fatal text (some e) = fatal (text ++ error_text e)

module _ (host : Host) where
  -- A call that may fail, with its error as a value.
  abbrev pub attempt : MainCall → Go MainCall (Option Error)
  attempt c = ask c (λ h. ok (host.fails h c))
