-- ===== src/Gateway/LdapConn.antt =====
-- internal/gateway/ldap.go: the pooled connection, and the round trip of liveLookup. The state is
-- whether a bound connection is pooled; the directory and the network are a parameter that says how
-- the dials and the searches of one lookup end, in their order. The lookup's timer and the
-- warnings are left out here.
pub mod Laws
mod Tests
use devpods.Prelude.{
  ℕ, zero, suc, ◌+◌, ◌-◌, ◌*◌, ◌/◌, ◌%◌, ◌^◌, ◌≤◌, ◌<◌, ◌≡◌, refl, sym, ap, ◌∙◌, subst, ◌≢◌, ◌↔◌,
  ◌⊎◌, inl, inr, Bool, true, false, not, ◌&&◌, ◌||◌, Option, none, some, List, [], ◌∷◌, ◌++◌, map,
  append_assoc, append-nil, arith, ltb, leb, ◌==◌, if◌then◌else◌, ltb→lt, lt→ltb, leb→le, le→leb,
  ==_iff, tests, Bool-cases, Option-cases, and-true, is_none, some-injective, length, length-append,
  all, All, All-append, Text, bytes, text_eq, text_eq_refl, text_eq_iff, Text-cases, is_empty, Dict,
  lookup, insert, remove, lookup-insert, lookup-remove,
}
use devpods.Gateway.Identity.{SshLib, parse_keys}
use devpods.Gateway.LdapCache.{Lookup, answered, lookup_error}

-- A search ends with its entries, each with the values of the key attribute, or with an error.
pub data Search : Type 0 where
  entries : List (List Text) → Search
  search_error : Text → Search

-- How the calls of one lookup end: at most two dials (with their bind), one rendering of the filter
-- and two searches. An `Option Text` is Go's error, nil or not.
pub record Network : Type 0 where
  pub dial : Option Text
  pub render : Option Text
  pub search : Search
  pub redial : Option Text
  pub research : Search

-- acquireConn: a pooled connection is used again, and a dial that succeeds is pooled.
unfoldable pub acquire_conn : Bool → Option Text → Option Text × Bool
acquire_conn true dial = (none, true)
acquire_conn false none = (none, true)
acquire_conn false (some err) = (some err, false)

unfoldable pub reset_conn : Bool → Bool
reset_conn conn = false

module _ (ssh : SshLib) where
  open ssh use {Key}

  -- The keys of the first entry; a directory without an entry for the user answers with nil.
  unfoldable pub keys_of_entries : List (List Text) → Option (List Key)
  keys_of_entries [] = none
  keys_of_entries (vals ∷ _) = some (parse_keys ssh vals)

  unfoldable pub search_failed : Text → Lookup Key × Bool
  search_failed err = (lookup_error (bytes "ldap search: " ++ err), reset_conn true)

  -- The retry after a failed search: reset, dial anew, search once more.
  unfoldable pub retry : Network → Text → Lookup Key × Bool
  unfolding search_failed keys_of_entries acquire_conn reset_conn
  retry net err =
      let (rerr, conn) = acquire_conn (reset_conn true) net.redial in
      if is_none rerr
      then (elim net.research [
        | entries es ↦ (answered (keys_of_entries es), conn)
        | search_error err' ↦ search_failed err'
      ])
      else search_failed err

  unfoldable pub live_lookup : Network → Bool → Lookup Key × Bool
  live_lookup net pooled =
      let (derr, conn) = acquire_conn pooled net.dial in
      elim derr [
        | some err ↦ (lookup_error (bytes "ldap dial/bind: " ++ err), conn)
        | none ↦ elim net.render [
          | some err ↦ (lookup_error (bytes "ldap render filter: " ++ err), conn)
          | none ↦ elim net.search [
            | entries es ↦ (answered (keys_of_entries es), conn)
            | search_error err ↦ retry net err
          ]
        ]
      ]
