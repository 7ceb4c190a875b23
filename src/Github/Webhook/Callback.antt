-- ===== src/Github/Webhook/Callback.antt =====
-- internal/github/handlers.go: `CallbackHandler` and the places it redirects to.
use gopherci.Common.{
  ◌≡◌, refl, Bool, not, lit, true, false, [], ◌++◌, Bytes, Result, ok, err, panic, if◌then◌else◌,
  ◌==◌, bytes_eq, has_prefix, has_prefix-append, has_prefix-split,
}
use gopherci.Github.{Config}
use gopherci.Github.Webhook.{Reply, replied_ok, http_error, redirected, callback}

-- A redirect goes, with See Other, to the target, which starts with the base URL.
abbrev pub StaysOnBase : Config → Bytes → Reply → Type 0
StaysOnBase config target (redirected to code) =
    (to ≡ target) × (code ≡ 303) × (rest : Bytes) × (target ≡ config.gci_base_url ++ rest)
StaysOnBase config target (http_error _ code) = Unit
StaysOnBase config target replied_ok = ⊥

checked-StaysOnBase :
    (config : Config) (target : Bytes) (unset matches : Bool)
    → has_prefix target config.gci_base_url ≡ matches
    → StaysOnBase config target (
        if unset
        then http_error (lit "no target_url set") 400
        else if not matches
        then http_error (lit "invalid target_url") 400
        else redirected target 303)
checked-StaysOnBase config target true matches q = tt
checked-StaysOnBase config target false false q = tt
checked-StaysOnBase config target false true q =
    let (rest, split) = has_prefix-split target config.gci_base_url q in (refl, refl, rest, split)

-- Whatever the form holds, the callback redirects only to the given target, with status 303, and
-- only if that starts with the base URL; its other replies are errors.
pub callback-StaysOnBase :
    (config : Config) (form : Result (Unit {0})) (target : Bytes)
    → StaysOnBase config target (callback config form target)
unfolding callback
callback-StaysOnBase config (err e) target = tt
callback-StaysOnBase config (panic m) target = tt
callback-StaysOnBase config (ok _) target = checked-StaysOnBase config target (target == []) _ refl

-- Every target that extends the base URL is redirected to, whatever follows in it.
pub callback-append :
    (config : Config) (rest : Bytes)
    → (config.gci_base_url ++ rest == []) ≡ false
    → callback config (ok (tt {0})) (config.gci_base_url ++ rest)
      ≡ redirected (config.gci_base_url ++ rest) 303
unfolding callback
callback-append config rest given = rw (given, has_prefix-append config.gci_base_url rest) refl
