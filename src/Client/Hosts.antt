-- ===== src/Client/Hosts.antt =====
-- `Client.Do` up to `HostClient.Do`, and `mCleaner`: the clients of the hosts and who cleans them
-- up, client.go. Each function is a section under `mLock`.
pub mod Cleaned
use justhttp.Base.{
  ℕ, ◌+◌, ◌-◌, ◌<◌, ◌≡◌, Bool, true, false, not, Option, none, some, List, [], ◌∷◌, ◌==◌,
  if◌then◌else◌, length, Bytes, codes, equal, is_none,
}
use justhttp.Base.Search.{index}

-- A `HostClient` by what `Client.Do` gives it besides the settings of the client.
pub record Host : Type 0 where
  pub key : Bytes
  pub addr : Bytes
  pub is_tls : Bool

-- The map `m` or `ms`, and how many goroutines run `mCleaner` for it or are about to.
pub record Hosts : Type 0 where
  pub entries : List Host
  pub cleaners : ℕ

pub record Client : Type 0 where
  pub m : Hosts
  pub ms : Hosts

unfoldable pub find_host : Bytes → List Host → Option Host
find_host host [] = none
find_host host (h ∷ hs) = if equal h.key host then some h else find_host host hs

-- The loop of `mCleaner`, where a host is asked for its `connsCount`.
unfoldable pub remove_unused : (Host → ℕ) → List Host → List Host
remove_unused conns_count [] = []
remove_unused conns_count (h ∷ hs) =
    let rest = remove_unused conns_count hs in if conns_count h == 0 then rest else h ∷ rest

-- A round of `mCleaner`, which ends the goroutine if nothing is left.
unfoldable pub clean_hosts : (Host → ℕ) → Hosts → Hosts
unfolding remove_unused
clean_hosts conns_count hs =
    let left = remove_unused conns_count hs.entries in
    if length left == 0
    then record { entries = left; cleaners = hs.cleaners - 1 }
    else record hs { entries = left }

-- The scheme of a request: whether it is HTTPS, or none of the two.
unfoldable pub is_tls_of : Bytes → Option Bool
unfolding equal
is_tls_of scheme =
    if equal scheme (codes "https")
    then some true
    else if equal scheme (codes "http")
    then some false
    else none

abbrev pub hosts_of : Client → Bool → Hosts
hosts_of c true = c.ms
hosts_of c false = c.m

abbrev pub with_hosts : Client → Bool → Hosts → Client
with_hosts c true hs = record c { ms = hs }
with_hosts c false hs = record c { m = hs }

abbrev pub new_client : Client
new_client = record {
  m = record { entries = []; cleaners = 0 };
  ms = record { entries = []; cleaners = 0 };
}

-- `net.JoinHostPort`.
module _ (join_host_port : Bytes → Bytes → Bytes) where
  -- `addMissingPort`.
  unfoldable pub add_missing_port : Bytes → Bool → Bytes
  unfolding index
  add_missing_port addr is_tls =
      if not (is_none (index (codes ":") addr))
      then addr
      else join_host_port addr (if is_tls then codes "443" else codes "80")

  unfoldable pub new_host : Bytes → Bool → Host
  unfolding add_missing_port
  new_host host is_tls = record { key = host; addr = add_missing_port host is_tls; is_tls = is_tls }

  -- The client of a host, made if there is none; a cleaner starts with the first one.
  unfoldable pub host_client : Hosts → Bytes → Bool → Hosts × Host
  unfolding find_host new_host
  host_client hs host is_tls = elim (find_host host hs.entries) [
    | some h ↦ (hs, h)
    | none ↦
        let entries = new_host host is_tls ∷ hs.entries in
        (
          record {
            entries = entries;
            cleaners = if length entries == 1 then hs.cleaners + 1 else hs.cleaners;
          },
          new_host host is_tls,
        )
  ]

  -- `Client.Do` for a URI's scheme and host; `none` is an unsupported protocol.
  unfoldable pub client_do : Client → Bytes → Bytes → Option (Client × Host)
  unfolding is_tls_of host_client
  client_do c scheme host = elim (is_tls_of scheme) [
    | none ↦ none
    | some is_tls ↦
        let (hs, h) = host_client (hosts_of c is_tls) host is_tls in
        some (with_hosts c is_tls hs, h)
  ]

  -- A cleaner makes a round only while it runs.
  pub data Step (c d : Client) : Type 0 where
    doing : (scheme host : Bytes) (h : Host) → client_do c scheme host ≡ some (d, h) → Step c d
    cleaning :
        (is_tls : Bool) (conns_count : Host → ℕ)
        → 0 < (hosts_of c is_tls).cleaners
        → d ≡ with_hosts c is_tls (clean_hosts conns_count (hosts_of c is_tls))
        → Step c d

  pub data Reach : Client → Type 0 where
    start : Reach new_client
    after : {c d : Client} → Reach c → Step c d → Reach d
