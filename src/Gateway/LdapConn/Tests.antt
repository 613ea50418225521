-- ===== src/Gateway/LdapConn/Tests.antt =====
-- A lookup over a connection that the server has closed, and instances of the theorems.
use devpods.Prelude.{◌≡◌, refl, true, none, some, [], ◌∷◌, bytes}
use devpods.Gateway.LdapCache.{answered}
use devpods.Gateway.LdapConn.{
  Network, entries, search_error, keys_of_entries, live_lookup, retry, acquire_conn,
}
use devpods.Gateway.LdapConn.Laws.{IsJustified, live_lookup-IsJustified}
use devpods.Gateway.Identity.{parse_keys}
use devpods.Gateway.Samples.{plain_ssh}

-- The pooled connection is dead; the dial after it succeeds.
abbrev idle : Network
idle = record {
  dial = none;
  render = none;
  search = search_error (bytes "closed");
  redial = none;
  research = entries ((bytes "k" ∷ []) ∷ []);
}

reconnected : live_lookup plain_ssh idle true ≡ (answered (some (bytes "k" ∷ [])), true)
unfolding live_lookup retry acquire_conn keys_of_entries parse_keys
reconnected = refl

live_lookup-IsJustified_example : IsJustified plain_ssh idle true (live_lookup plain_ssh idle true)
live_lookup-IsJustified_example = live_lookup-IsJustified plain_ssh idle true
