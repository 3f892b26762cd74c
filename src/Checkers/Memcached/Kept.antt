-- ===== src/Checkers/Memcached/Kept.antt =====
-- checks/memcached/check.go: the DSN, and what the check shows by its answer.
use health_go.Base.{String, Bool, true, not, some, none, [], ◌∷◌, ◌≡◌, refl, arith, is_some}
use health_go.Base.Text.{◌<>◌, trim_prefix, trim_suffix, strip_prefix, strip_suffix}
use health_go.Base.Affixes.{strip_prefix-append, strip_suffix-append}
use health_go.Checkers.{perform, call, succeed, Reply, Trace, answered}
use health_go.Checkers.Resources.{Role, neutral, creates, stack, call-Releases, succeed-Releases}
use health_go.Checkers.Failures.{all_fine, Honest, succeed-Honest, perform-Honest, call-Honest}
use health_go.Checkers.Memcached.{Config, Call, new_client, ping, check_body, check, memcached_dsn}

-- Both forms of a DSN, with schema and path and without, are read as the same address, if this does not itself
-- begin with the schema or end with a slash.
pub memcached_dsn-forms :
    (address : String)
    → strip_prefix "memcached://" address ≡ none
    → strip_suffix "/" address ≡ none
    → (memcached_dsn address ≡ address)
      × (memcached_dsn ("memcached://" <> (address <> "/")) ≡ address)
unfolding memcached_dsn trim_prefix trim_suffix
memcached_dsn-forms address no_schema no_path =
    (rw (no_schema, no_path) refl, rw (strip_prefix-append, strip_suffix-append) refl)

abbrev pub role : Call → Role
role (new_client address) = creates 0
role ping = neutral

abbrev pub fine : Call → Reply Unit → Bool
fine (new_client address) r = true
fine ping r = answered r

body-Honest :
    (answer : Trace Call Unit → Call → Reply Unit) (address : String)
    → Honest fine (check_body answer address)
unfolding check_body
body-Honest answer address =
    perform-Honest fine answer _ (λ r. refl)
      (call-Honest fine answer _ _ (λ r. refl) (λ _. succeed-Honest fine))

-- The check of memcached reports no error just when the ping was answered. It leaves the client
-- that it made open.
pub memcached_check-cases :
    (answer : Trace Call Unit → Call → Reply Unit) (c : Config)
    → (not (is_some (check answer c).0.error) ≡ all_fine fine (check answer c).1)
      × (stack role (check answer c).1 ≡ some (0 ∷ []))
unfolding check check_body perform call succeed stack
memcached_check-cases answer c =
    let made : Trace Call Unit =
      (new_client (memcached_dsn c.dsn), answer [] (new_client (memcached_dsn c.dsn))) ∷ [] in
    (
      ground (arith, (body-Honest answer (memcached_dsn c.dsn)).says []),
      (call-Releases role answer ping "memcached ping failed" refl
            (λ _. succeed-Releases role)).kept
          made,
    )
