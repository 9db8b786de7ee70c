-- ===== src/Monitor/Changes.antt =====
-- The console outside listen mode: `logChangedf` of main.go logs a message only if it differs from the
-- last one that was logged under its key. A message is given formatted.
use mathlib.Core.List.{append_assoc, append-nil}
use pentameter.Prelude.{
  String, Bool, false, List, [], ◌∷◌, ◌++◌, ◌==◌, ◌≡◌, refl, sym, ◌∙◌, arith, eq_iff, if◌then◌else◌,
}
use pentameter.Prelude.Int.{ℤ, pos, eqb_ℤ}
use pentameter.Prelude.Map.{Map, insert, lookup_or, lookup_or-insert}

-- What `logChangedf` uses of `PoolMonitor`, with the lines on the console and their keys.
pub record Console : Type 0 where
  pub listen_mode : Bool
  pub last_logged : Map String
  pub lines : List (String × String)

-- `logChangedf`
unfoldable pub log_changed : String → String → Console → Console
log_changed key msg c =
    if c.listen_mode
    then c
    else if lookup_or "" key c.last_logged == msg
    then c
    else record c { last_logged = insert key msg c.last_logged; lines = c.lines ++ (key, msg) ∷ [] }

unfoldable pub log_all : List (String × String) → Console → Console
log_all [] c = c
log_all ((key, msg) ∷ calls) c = log_all calls (log_changed key msg c)

-- `getStatusDescription`
unfoldable pub get_status_description : ℤ → String
get_status_description status =
    if eqb_ℤ status (pos 0)
    then "off"
    else if eqb_ℤ status (pos 1)
    then "heating"
    else if eqb_ℤ status (pos 2)
    then "idle"
    else if eqb_ℤ status (pos 3)
    then "cooling"
    else "unknown"

-- The messages under one key.
unfoldable pub under : String → List (String × String) → List String
under key [] = []
under key ((k, msg) ∷ calls) = let rest = under key calls in if k == key then msg ∷ rest else rest

-- A list of messages without those that repeat the one before them, from a message on.
unfoldable pub transitions : String → List String → List String
transitions prev [] = []
transitions prev (msg ∷ msgs) =
    let same = transitions prev msgs in
    let next = transitions msg msgs in if prev == msg then same else msg ∷ next

under-append :
    (key : String) (xs ys : List (String × String))
    → under key (xs ++ ys) ≡ under key xs ++ under key ys
unfolding under
under-append key [] ys = refl
under-append key ((k, msg) ∷ xs) ys = ground (arith, under-append key xs ys)

log_changed-mode :
    (key msg : String) (c : Console) → (log_changed key msg c).listen_mode ≡ c.listen_mode
unfolding log_changed
log_changed-mode key msg c = ground arith

-- One call, as the lines under a key show it and as those to come will.
log_changed-transitions :
    (key k msg : String) (calls : List (String × String)) (c : Console)
    → c.listen_mode ≡ false
    → under key (log_changed k msg c).lines
        ++ transitions (lookup_or "" key (log_changed k msg c).last_logged) (under key calls)
      ≡ under key c.lines
        ++ transitions (lookup_or "" key c.last_logged) (under key ((k, msg) ∷ calls))
unfolding log_changed under transitions
log_changed-transitions key k msg calls c loud =
    let added = under-append key c.lines ((k, msg) ∷ []) in
    let stored = lookup_or-insert "" k key msg c.last_logged in
    let joined = append_assoc (under key c.lines) (msg ∷ []) (transitions msg (under key calls)) in
    ground (arith, loud, added, stored, joined, append-nil (under key c.lines), eq_iff k key)

-- Outside listen mode, whatever is logged: the lines under a key are those before it and then the
-- messages for this key, less each that repeats the one before it, the first one included, which is
-- compared with the last one logged.
pub log_all-transitions :
    (key : String) (calls : List (String × String)) (c : Console)
    → c.listen_mode ≡ false
    → under key (log_all calls c).lines
      ≡ under key c.lines ++ transitions (lookup_or "" key c.last_logged) (under key calls)
unfolding log_all under transitions
log_all-transitions key [] c loud = sym (append-nil (under key c.lines))
log_all-transitions key ((k, msg) ∷ calls) c loud =
    log_all-transitions key calls (log_changed k msg c) (log_changed-mode k msg c ∙ loud)
    ∙ log_changed-transitions key k msg calls c loud
